-- ===== src/Examples/Neighbours.antt =====
-- Two nodes that discover each other, and a mesh node with one reachable peer.
use meshpay.Base.{
  ◌≤◌, ◌≡◌, ◌≢◌, refl, true, false, none, some, String, [], ◌∷◌, All, length, arith, ◌⊎◌, is_before,
  eq_iff, ◌==◌,
}
use meshpay.Router.Attempts.{Config, no_attempts}
use meshpay.Router.Discovery.{
  Neighbours, Message, nonce_dict_max, start_exchange, handle_discovery_message,
}
use meshpay.Router.Discovery.Nonces.{handle_discovery_message-bound}
use meshpay.Router.Discovery.Initiator.{peer_at, hears, handle_discovery_message-initiator}
use meshpay.Router.Mesh.{Mesh, mesh_exchange_peers_per_tick, schedule_mesh_exchanges}
use meshpay.Router.Mesh.Schedule.{IsAdmitted, schedule_mesh_exchanges-IsAdmitted}
use meshpay.Examples.Attempts.{node_config}

abbrev other_config : Config
other_config = record node_config { node = "a" }

abbrev neighbours : Neighbours
neighbours = record {
  seen_discovery_nonces = ("n1", 4_000_000) ∷ [];
  peers = [];
  mesh_reachable_peers =
      ("c", record { peer_ip = "10.0.0.3"; peer_port = 7000; seen = 9_000_000 }) ∷ [];
  attempts = no_attempts;
  actions = [];
}

abbrev discover : Message
discover = record {
  type = "discover";
  node = some "a";
  exchange_port = some 7000;
  nonce = some "n2";
}

handle_discovery_message-bound_example :
    length
      (handle_discovery_message node_config 5_000_000 "10.0.0.1" discover
        neighbours).seen_discovery_nonces
    ≤ nonce_dict_max
handle_discovery_message-bound_example =
    handle_discovery_message-bound node_config 5_000_000 "10.0.0.1" discover neighbours
      (omega arith)

named : (s t : String) → (s == t) ≡ false → s ≢ t
named s t h same = absurd (ground (arith, h, eq_iff s t, same))

handle_discovery_message-initiator_example :
    ((is_before "a" "b" ≡ true)
      × (hears other_config node_config 5_000_000 "10.0.0.2" none neighbours
          ≡ start_exchange (peer_at node_config "10.0.0.2") true ∷ [])
      × (hears node_config other_config 6_000_000 "10.0.0.1" none neighbours ≡ []))
    ⊎ ((is_before "b" "a" ≡ true)
        × (hears other_config node_config 5_000_000 "10.0.0.2" none neighbours ≡ [])
        × (hears node_config other_config 6_000_000 "10.0.0.1" none neighbours
            ≡ start_exchange (peer_at other_config "10.0.0.1") true ∷ []))
handle_discovery_message-initiator_example =
    handle_discovery_message-initiator other_config node_config 5_000_000 6_000_000 "10.0.0.1"
      "10.0.0.2" none none neighbours neighbours refl refl (named "a" "" refl) (named "b" "" refl)
      (named "a" "b" refl)

abbrev mesh : Mesh
mesh = record {
  neighbours = neighbours;
  mesh_empty_sync = λ _. none;
  mesh_bypass_symmetry = [];
  mesh_probe_cursor = 0;
  mesh_exchange_cursor = 0;
}

schedule_mesh_exchanges-IsAdmitted_example :
    (length (schedule_mesh_exchanges node_config 10_000_000 1 mesh).0
      ≤ mesh_exchange_peers_per_tick node_config)
    × All
        (IsAdmitted node_config 10_000_000 neighbours)
        (schedule_mesh_exchanges node_config 10_000_000 1 mesh).0
schedule_mesh_exchanges-IsAdmitted_example =
    schedule_mesh_exchanges-IsAdmitted node_config 10_000_000 1 mesh (omega arith)
