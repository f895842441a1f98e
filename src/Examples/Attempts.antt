-- ===== src/Examples/Attempts.antt =====
-- A node with one slot and two peers: one exchange holds the slot, one is admitted.
use mathlib.Core.Option.{get_or}
use Prim.Native.Nat.{◌^◌}
use meshpay.Base.{◌+◌, ◌*◌, ◌≤◌, ◌≡◌, refl, true, false, [], arith, ◌↔◌}
use meshpay.Router.Attempts.{
  Config, Peer, same_peer, no_attempts, System, Reach, start, later, admit, acquire, slots,
  has_peer, should_attempt_exchange,
}
use meshpay.Router.Attempts.Backoff.{fail_times, delay, capped, fail_times-delay}
use meshpay.Router.Attempts.Slots.{
  exchanges_with, slots_held, longest_delay, Reach-exclusive, Reach-admits,
}
use meshpay.Router.Attempts.Drain.{Steps, IsQuiet, Reach-IsQuiet}

abbrev pub node_config : Config
node_config = record {
  node = "b";
  is_mesh = false;
  exchange_port = 7000;
  discovery_interval = 3_000_000;
  max_backoff = 20_000_000;
  empty_sync_cooldown = 1_000_000;
  max_parallel_exchanges = 1;
}

abbrev pub peer_c : Peer
peer_c = record { peer_node = "c"; peer_ip = "10.0.0.3"; peer_port = 7000 }

abbrev peer_d : Peer
peer_d = record { peer_node = "d"; peer_ip = "10.0.0.4"; peer_port = 7000 }

two_admitted : (s : System) × Reach node_config s
unfolding should_attempt_exchange same_peer
two_admitted = (
  _,
  later (later start (admit peer_c 5_000_000 false refl refl))
      (admit peer_d 6_000_000 true refl refl),
)

-- The exchange with `d` gets the slot.
busy : (s : System) × Reach node_config s
unfolding should_attempt_exchange same_peer two_admitted
busy = (_, later two_admitted.1 (acquire peer_d [] _ refl (omega arith)))

fail_times-delay_example :
    delay node_config peer_c (fail_times node_config peer_c (λ n. 10_000_000 + n) 2 no_attempts)
    ≡ capped 20_000_000 (2 ^ 2 * delay node_config peer_c no_attempts)
fail_times-delay_example = fail_times-delay node_config peer_c (λ n. 10_000_000 + n) 1 no_attempts

Reach-exclusive_example :
    ((k : Peer)
      → (exchanges_with k busy.0.threads ≤ 1)
        × ((exchanges_with k busy.0.threads ≡ 1)
            ↔ (has_peer k busy.0.attempts.active_exchanges ≡ true)))
    × (slots_held busy.0.threads ≤ slots node_config)
Reach-exclusive_example = Reach-exclusive busy.1

-- A peer that no attempt has been made at.
abbrev peer_e : Peer
peer_e = record { peer_node = "e"; peer_ip = "10.0.0.5"; peer_port = 7000 }

Reach-admits_example :
    ((should_attempt_exchange node_config peer_e 30_000_000 false busy.0.attempts).0 ≡ true)
    × (get_or (busy.0.attempts.backoff peer_e) 3_000_000 ≤ longest_delay node_config)
unfolding exchanges_with busy two_admitted should_attempt_exchange same_peer longest_delay
Reach-admits_example = Reach-admits peer_e 30_000_000 busy.1 refl (omega arith)

Reach-IsQuiet_example : (t : System) × Steps node_config busy.0 t × IsQuiet node_config t
Reach-IsQuiet_example = Reach-IsQuiet busy.1
