-- ===== src/Router/Mesh.antt =====
-- The mesh mode (dtn/router.py): which peers are probed, and which exchanges are scheduled. The number
-- of ids in the store is an argument, `bundle_count`, as is the clock, read once per method; the timer
-- that delays a start by its jitter is left out.
pub mod Probes
pub mod Schedule
use mathlib.Core.Option.{get_or}
use meshpay.Base.{
  ℕ, zero, suc, ◌+◌, ◌-◌, ◌*◌, ◌%◌, max, ltb, nat_eq, Bool, true, false, not, ◌&&◌, Option, none,
  some, String, ◌==◌, is_before, sort_names, unique, if◌then◌else◌, List, [], ◌∷◌, ◌++◌, contains,
  filter, length, Dict, lookup, keys, ◌||◌,
}
use meshpay.Router.Attempts.{Config, Peer, same_peer, has_peer, Attempts}
use meshpay.Router.Discovery.{Reachable, Neighbours}

-- A peer whose exchange was empty waits until a time, unless the store has more bundles than then.
pub record EmptySync : Type 0 where
  pub until : ℕ
  pub bundle_count : ℕ

pub record Mesh : Type 0 where
  pub neighbours : Neighbours
  pub mesh_empty_sync : Peer → Option EmptySync
  pub mesh_bypass_symmetry : List String
  pub mesh_probe_cursor : ℕ
  pub mesh_exchange_cursor : ℕ

abbrev pub mesh_probe_peers_per_round : Config → ℕ
mesh_probe_peers_per_round c = max 6 (c.max_parallel_exchanges * 2)

abbrev pub mesh_exchange_peers_per_tick : Config → ℕ
mesh_exchange_peers_per_tick c = max 1 c.max_parallel_exchanges

abbrev pub mesh_peer_ttl : Config → ℕ
mesh_peer_ttl c = max (c.discovery_interval * 6) 6_000_000

-- `_prune_mesh_reachable_peers`
unfoldable pub prune_reachable : ℕ → ℕ → Dict Reachable → Dict Reachable
prune_reachable ttl now [] = []
prune_reachable ttl now ((n, r) ∷ rest) =
    if ltb (r.seen + ttl) now
    then prune_reachable ttl now rest
    else (n, r) ∷ prune_reachable ttl now rest

unfoldable pub prune_mesh_reachable_peers : Config → ℕ → Mesh → Mesh
prune_mesh_reachable_peers c now m = record m {
  neighbours = record m.neighbours {
    mesh_reachable_peers = prune_reachable (mesh_peer_ttl c) now m.neighbours.mesh_reachable_peers;
  };
}

-- The nodes that were seen within the ttl.
unfoldable pub recently_reachable : ℕ → ℕ → Dict Reachable → List String
recently_reachable ttl now [] = []
recently_reachable ttl now ((n, r) ∷ rest) =
    if ltb now (r.seen + ttl)
    then n ∷ recently_reachable ttl now rest
    else recently_reachable ttl now rest

abbrev pub at_index : {A : Type 0} → ℕ → List A → Option A
at_index n [] = none
at_index zero (x ∷ xs) = some x
at_index (suc n) (x ∷ xs) = at_index n xs

-- The body of the `while` of `_select_mesh_probe_peers`.
unfoldable pub add_probe : String → Option String → List String → List String
add_probe node none selected = selected
add_probe node (some peer) selected =
    if not (contains peer selected) && not (peer == node) then selected ++ (peer ∷ []) else selected

-- The `while`, with the attempts that are left, and the cursor.
unfoldable pub probe_loop : String → List String → ℕ → ℕ → ℕ → List String → List String × ℕ
probe_loop node all_known target zero cursor selected = (selected, cursor)
probe_loop node all_known target (suc left) cursor selected =
    let peer = at_index (cursor % length all_known) all_known in
    let rest = probe_loop node all_known target left (suc cursor) (add_probe node peer selected) in
    if ltb (length selected) target then rest else (selected, cursor)

-- `_select_mesh_probe_peers`; `static_peers` are the names of the static peers.
unfoldable pub select_mesh_probe_peers :
    Config → ℕ → List String → List String → Mesh → List String × Mesh
select_mesh_probe_peers c now static_peers station_peers m =
    let recent = recently_reachable (mesh_peer_ttl c) now m.neighbours.mesh_reachable_peers in
    let priority = filter (λ n. contains n static_peers) (unique (station_peers ++ recent)) in
    let selected = filter (λ n. not (n == c.node)) (sort_names priority) in
    let all_known = sort_names (unique static_peers) in
    let target = max (mesh_probe_peers_per_round c) (length selected) in
    let (probes, cursor) =
      probe_loop c.node all_known target (length all_known) m.mesh_probe_cursor selected in
    (probes, record m { mesh_probe_cursor = cursor })

abbrev pub set_sync : {V : Type 0} → Peer → Option V → (Peer → Option V) → Peer → Option V
set_sync k v d j = if same_peer k j then v else d j

-- `_note_mesh_exchange_work`, with what `random.uniform(0.0, 0.2)` returns.
unfoldable pub note_mesh_exchange_work : Config → ℕ → ℕ → ℕ → Peer → ℕ → ℕ → Mesh → Mesh
note_mesh_exchange_work c now bundle_count jitter k sent received m =
    let least = if ltb 250_000 c.discovery_interval then 250_000 else c.discovery_interval in
    if nat_eq sent 0 && nat_eq received 0
    then record m {
      mesh_empty_sync =
          set_sync k
            (some (record {
              until = now + max (c.empty_sync_cooldown + jitter) least;
              bundle_count = bundle_count;
            }))
            m.mesh_empty_sync;
    }
    else record m { mesh_empty_sync = set_sync k none m.mesh_empty_sync }

-- `_mesh_empty_sync_remaining`
unfoldable pub mesh_empty_sync_remaining : ℕ → ℕ → Peer → Mesh → ℕ × Mesh
mesh_empty_sync_remaining now bundle_count k m = elim (m.mesh_empty_sync k) [
  | none ↦ (0, m)
  | some entry ↦
      if not (ltb now entry.until) || ltb entry.bundle_count bundle_count
      then (
        0,
        record m {
          mesh_empty_sync = set_sync k none m.mesh_empty_sync;
          mesh_bypass_symmetry = k.peer_node ∷ m.mesh_bypass_symmetry;
        },
      )
      else (entry.until - now, m)
]

-- `_mesh_exchange_backoff_remaining`; the difference stops at 0, as in the code.
unfoldable pub mesh_exchange_backoff_remaining : Config → ℕ → Peer → Attempts → ℕ
mesh_exchange_backoff_remaining c now k a =
    if has_peer k a.active_exchanges
    then c.max_backoff
    else get_or (a.last_attempt k) 0 + get_or (a.backoff k) c.discovery_interval - now

-- The body of the loop of `_schedule_mesh_exchanges` for one candidate; whether it is scheduled.
unfoldable pub inspect : Config → ℕ → ℕ → Peer → Mesh → Bool × Mesh
inspect c now bundle_count k m =
    let (empty_remaining, m1) = mesh_empty_sync_remaining now bundle_count k m in
    let bypass = contains k.peer_node m1.mesh_bypass_symmetry in
    let m2 = record m1 {
      mesh_bypass_symmetry = filter (λ n. not (n == k.peer_node)) m1.mesh_bypass_symmetry;
    } in
    if not (is_before c.node k.peer_node) && not bypass
    then (false, m2)
    else if ltb 0 (mesh_exchange_backoff_remaining c now k m2.neighbours.attempts)
    then (false, m2)
    else if ltb 0 empty_remaining
    then (false, m2)
    else (true, m2)

abbrev pub peer_of : String → Reachable → Peer
peer_of n r = record { peer_node = n; peer_ip = r.peer_ip; peer_port = r.peer_port }

abbrev pub moved : Mesh → Mesh
moved m = record m { mesh_exchange_cursor = suc m.mesh_exchange_cursor }

abbrev pub candidate : List String → Mesh → Option Peer
candidate candidates m = elim (at_index (m.mesh_exchange_cursor % length candidates) candidates) [
  | none ↦ none
  | some n ↦ elim (lookup n m.neighbours.mesh_reachable_peers) [
    | none ↦ none
    | some r ↦ some (peer_of n r)
  ]
]

abbrev pub inspected : Config → ℕ → ℕ → Option Peer → Mesh → Bool × Mesh
inspected c now bundle_count none m = (false, m)
inspected c now bundle_count (some k) m = inspect c now bundle_count k m

abbrev pub with_peer : Bool → Option Peer → List Peer → List Peer
with_peer true (some k) ks = k ∷ ks
with_peer _ _ ks = ks

-- The loop, with the candidates that are left to inspect and the exchanges that may be scheduled; the
-- peers that are scheduled, in their order.
unfoldable pub schedule_loop : Config → ℕ → ℕ → List String → ℕ → ℕ → Mesh → List Peer × Mesh
schedule_loop c now bundle_count candidates zero budget m = ([], m)
schedule_loop c now bundle_count candidates (suc left) budget m =
    let k = candidate candidates m in
    let (scheduled, m') = inspected c now bundle_count k (moved m) in
    let (rest, after) =
      schedule_loop c now bundle_count candidates left (budget - (if scheduled then 1 else 0)) m' in
    if ltb 0 budget then (with_peer scheduled k rest, after) else ([], m)

-- `_schedule_mesh_exchanges`
unfoldable pub schedule_mesh_exchanges : Config → ℕ → ℕ → Mesh → List Peer × Mesh
schedule_mesh_exchanges c now bundle_count m =
    let m' = prune_mesh_reachable_peers c now m in
    let candidates = sort_names (unique (keys m'.neighbours.mesh_reachable_peers)) in
    schedule_loop c now bundle_count candidates (length candidates) (mesh_exchange_peers_per_tick c)
      m'
