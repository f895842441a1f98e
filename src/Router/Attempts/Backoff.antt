-- ===== src/Router/Attempts/Backoff.antt =====
-- The back-off of one peer after attempts that fail.
use Prim.Native.Nat.{◌^◌}
use native.Mathlib.Numerals.{unary_clauses}
use mathlib.Core.Option.{get_or}
use meshpay.Base.{
  ℕ, zero, ap, ◌∙◌, suc, ◌*◌, ltb, ◌≡◌, refl, true, false, eq_iff, eq_refl, arith, if◌then◌else◌,
}
use meshpay.Router.Attempts.{Config, Peer, same_peer, Attempts, Outcome, finish_exchange_attempt}

pub same_peer_refl : (k : Peer) → same_peer k k ≡ true
unfolding same_peer
same_peer_refl k = ground (arith, eq_refl k.peer_node, eq_refl k.peer_ip)

pub same_peer_eq : (k j : Peer) → same_peer k j ≡ true → k ≡ j
unfolding same_peer
same_peer_eq k j h = ground (arith, eq_iff k.peer_node j.peer_node, eq_iff k.peer_ip j.peer_ip)

abbrev pub failure : Outcome
failure = record {
  success = false;
  sent_count = 0;
  received_count = 0;
  deferred = false;
  short_jitter = 0;
  long_jitter = 0;
}

-- The attempts at one peer that fail one after the other, with the clock of each end.
abbrev pub fail_times : Config → Peer → (ℕ → ℕ) → ℕ → Attempts → Attempts
fail_times c k clock zero a = a
fail_times c k clock (suc n) a =
    finish_exchange_attempt c k (clock n) failure (fail_times c k clock n a)

abbrev pub capped : ℕ → ℕ → ℕ
capped limit n = if ltb limit n then limit else n

-- The delay that the next attempt reads.
abbrev pub delay : Config → Peer → Attempts → ℕ
delay c k a = get_or (a.backoff k) c.discovery_interval

delay-failure :
    (c : Config) (k : Peer) (now : ℕ) (a : Attempts)
    → delay c k (finish_exchange_attempt c k now failure a) ≡ capped c.max_backoff (delay c k a * 2)
unfolding finish_exchange_attempt
delay-failure c k now a = rw (same_peer_refl k) refl

doubled_again : (limit n : ℕ) → capped limit (capped limit n * 2) ≡ capped limit (n * 2)
doubled_again limit n = ground arith

twice : (p d : ℕ) → p * 2 * d * 2 ≡ p * 2 * 2 * d
twice p d = omega arith

-- After one failed attempt at a peer and `n` more in a row, whatever the clock says, the delay is
-- 2 ^ (n + 1) times the one before them, or `max_backoff` where that is less.
pub fail_times-delay :
    (c : Config) (k : Peer) (clock : ℕ → ℕ) (n : ℕ) (a : Attempts)
    → delay c k (fail_times c k clock (suc n) a) ≡ capped c.max_backoff (2 ^ suc n * delay c k a)
fail_times-delay c k clock zero a =
    delay-failure c k (clock 0) a ∙ ap (capped c.max_backoff) (omega arith)
fail_times-delay c k clock (suc n) a =
    delay-failure c k (clock (suc n)) (fail_times c k clock (suc n) a)
    ∙ ap (λ d. capped c.max_backoff (d * 2)) (fail_times-delay c k clock n a)
    ∙ doubled_again c.max_backoff (2 ^ suc n * delay c k a)
    ∙ ap (capped c.max_backoff) (simp unary_clauses (twice (2 ^ n) (delay c k a)))
