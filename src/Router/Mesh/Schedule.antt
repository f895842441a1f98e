-- ===== src/Router/Mesh/Schedule.antt =====
-- What `_schedule_mesh_exchanges` schedules.
use mathlib.Core.Path.{subst}
use meshpay.Base.{
  ℕ, zero, suc, ◌+◌, ◌-◌, ◌≤◌, ◌<◌, ltb, ◌≡◌, refl, Bool, true, false, Option, none, some, String,
  if◌then◌else◌, List, All, length, arith, Bool-cases, inl, inr,
}
use meshpay.Router.Attempts.{Config, Peer, should_attempt_exchange}
use meshpay.Router.Discovery.{Neighbours}
use meshpay.Router.Mesh.{
  Mesh, mesh_exchange_peers_per_tick, prune_mesh_reachable_peers, mesh_empty_sync_remaining,
  mesh_exchange_backoff_remaining, inspect, moved, candidate, inspected, with_peer, schedule_loop,
  schedule_mesh_exchanges,
}

-- An inspection leaves the neighbours as they are.
neighbours-inspect :
    (c : Config) (now n : ℕ) (k : Peer) (m : Mesh)
    → (inspect c now n k m).1.neighbours ≡ m.neighbours
unfolding inspect mesh_empty_sync_remaining
neighbours-inspect c now n k m = ground arith

-- A peer that is scheduled is admitted at this time.
inspect-admitted :
    (c : Config) (now n : ℕ) (k : Peer) (m : Mesh)
    → 0 < c.max_backoff
    → (inspect c now n k m).0 ≡ true
    → (should_attempt_exchange c k now false m.neighbours.attempts).0 ≡ true
unfolding inspect mesh_empty_sync_remaining mesh_exchange_backoff_remaining should_attempt_exchange
inspect-admitted c now n k m backs_off h = ground (arith, backs_off, h)

-- `exchange_with_peer` would be admitted for the peer, without force.
abbrev pub IsAdmitted : Config → ℕ → Neighbours → Peer → Type 0
IsAdmitted c now s k = (should_attempt_exchange c k now false s.attempts).0 ≡ true

neighbours-inspected :
    (c : Config) (now n : ℕ) (k : Option Peer) (m : Mesh)
    → (inspected c now n k (moved m)).1.neighbours ≡ m.neighbours
neighbours-inspected c now n none m = refl
neighbours-inspected c now n (some k) m = neighbours-inspect c now n k (moved m)

module _ (c : Config) (now n : ℕ) (backs_off : 0 < c.max_backoff) (candidates : List String) where
  with_peer-IsAdmitted :
      (scheduled : Bool) (k : Option Peer) (ks : List Peer) (m : Mesh)
      → (inspected c now n k (moved m)).0 ≡ scheduled
      → All (IsAdmitted c now m.neighbours) ks
      → All (IsAdmitted c now m.neighbours) (with_peer scheduled k ks)
  with_peer-IsAdmitted true (some k) ks m h rest =
      (inspect-admitted c now n k (moved m) backs_off h, rest)
  with_peer-IsAdmitted true none ks m h rest = rest
  with_peer-IsAdmitted false k ks m h rest = rest

  length-with_peer :
      (scheduled : Bool) (k : Option Peer) (ks : List Peer)
      → length (with_peer scheduled k ks) ≤ (if scheduled then 1 else 0) + length ks
  length-with_peer true (some k) ks = omega arith
  length-with_peer true none ks = omega arith
  length-with_peer false k ks = omega arith

  schedule_loop-lem :
      (left budget : ℕ) (m : Mesh)
      → (length (schedule_loop c now n candidates left budget m).0 ≤ budget)
        × All (IsAdmitted c now m.neighbours) (schedule_loop c now n candidates left budget m).0
  unfolding schedule_loop
  schedule_loop-lem zero budget m = (omega arith, tt)
  schedule_loop-lem (suc left) budget m =
      let k = candidate candidates m in
      let (scheduled, m') = inspected c now n k (moved m) in
      let spent = if scheduled then 1 else 0 in
      let (few, due) = schedule_loop-lem left (budget - spent) m' in
      let due' : All (IsAdmitted c now m.neighbours)
          (schedule_loop c now n candidates left (budget - spent) m').0 =
        subst
          (λ s.
            All (IsAdmitted c now s) (schedule_loop c now n candidates left (budget - spent) m').0)
          (neighbours-inspected c now n k m) due in
      elim (Bool-cases (ltb 0 budget)) [
        | inl some_left ↦ rw some_left (
          ground (
            arith,
            some_left,
            few,
            length-with_peer scheduled k
                (schedule_loop c now n candidates left (budget - spent) m').0,
          ),
          with_peer-IsAdmitted scheduled k _ m refl due',
        )
        | inr none_left ↦ rw none_left (omega arith, tt)
      ]

-- One tick schedules no more exchanges than its budget, and only such that `exchange_with_peer` would
-- admit at this time: with no exchange with the peer under way, and its delay over.
pub schedule_mesh_exchanges-IsAdmitted :
    (c : Config) (now bundle_count : ℕ) (m : Mesh)
    → 0 < c.max_backoff
    → (length (schedule_mesh_exchanges c now bundle_count m).0 ≤ mesh_exchange_peers_per_tick c)
      × All (IsAdmitted c now m.neighbours) (schedule_mesh_exchanges c now bundle_count m).0
unfolding schedule_mesh_exchanges prune_mesh_reachable_peers
schedule_mesh_exchanges-IsAdmitted c now bundle_count m backs_off =
    schedule_loop-lem c now bundle_count backs_off _ _ _ _
