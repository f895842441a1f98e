-- ===== src/Spray/Copies.antt =====
-- How the copies of a bundle are shared out.
use meshpay.Base.{
  ℕ, suc, ◌+◌, ◌-◌, ◌/◌, ◌≤◌, ◌<◌, max, ltb, leb, ◌≡◌, refl, ap, false, Option, none, some, String,
  ◌==◌, eq_refl, if◌then◌else◌, List, [], ◌∷◌, length, Dict, lookup, lookup-insert, arith,
  Option-cases, Bool-cases, inl, inr,
}
use mathlib.Core.Option.{get_or}
use meshpay.Bundle.{Bundle}
use meshpay.Spray.{
  Router, Selection, ensure_copies, assign, counted, noted, chosen, select_loop, keep_ids,
  select_from,
}

-- The copies that the node has or will take for the bundle.
abbrev pub copies_of : Router → Bundle → Dict ℕ → ℕ
copies_of r b copies =
    get_or (lookup b.bundle_id copies) (if b.src == r.node then r.initial_copies else 1)

module _ (r : Router) (peer : String) (b : Bundle) (copies : Dict ℕ) where
  known_kept : (n : ℕ) → lookup b.bundle_id copies ≡ some n → (ensure_copies r b copies).1 ≡ copies
  unfolding ensure_copies
  known_kept n found = rw (ensure_copies, found)

  ensure_copies-lem :
      ((ensure_copies r b copies).0 ≡ copies_of r b copies)
      × (copies_of r b (ensure_copies r b copies).1 ≡ copies_of r b copies)
  unfolding ensure_copies
  ensure_copies-lem = elim (Option-cases (lookup b.bundle_id copies)) [
    | inr (n, found) ↦ (rw (ensure_copies, found), ap (copies_of r b) (known_kept n found))
    | inl missing ↦ (
      rw (ensure_copies, missing),
      grind (
        arith,
        missing,
        lookup-insert b.bundle_id b.bundle_id (if b.src == r.node then r.initial_copies else 1)
            copies,
        eq_refl b.bundle_id,
      ),
    )
  ]

  -- For a peer that is not the destination of a bundle of which the node has a copy, the copies that
  -- the peer is assigned and those that the node keeps add up to those it had. The node keeps at least
  -- one, and assigns none or at least one.
  pub assign-shares :
      (b.dst == peer) ≡ false
      → 1 ≤ copies_of r b copies
      → (copies_of r b (assign r peer b copies).0 + get_or (assign r peer b copies).1 0
          ≡ copies_of r b copies)
        × (1 ≤ copies_of r b (assign r peer b copies).0)
        × (1 ≤ get_or (assign r peer b copies).1 1)
  unfolding assign
  assign-shares relay some_copy =
      let (n, d') = ensure_copies r b copies in
      let (had, kept) = ensure_copies-lem in
      elim (Bool-cases (ltb 1 n)) [
        | inl many ↦
            rw
              (
                relay,
                many,
                lookup-insert b.bundle_id b.bundle_id (n - n / 2) d',
                eq_refl b.bundle_id,
              )
              (grind arith, grind arith, grind arith)
        | inr one ↦ rw (relay, one) (grind arith, grind arith, omega arith)
      ]

module _ (b : Bundle) (limit count : ℕ) (stop more : Selection) (nothing : stop.selected ≡ [])
    (room : count < max 1 limit) where
  chosen-limit :
      (assigned : Option ℕ)
      → (counted assigned count < max 1 limit
          → counted assigned count + length more.selected ≤ max 1 limit)
      → count
          + length
              (chosen b assigned
                (if leb limit (counted assigned count) then stop else more)).selected
        ≤ max 1 limit
  chosen-limit none later = elim (Bool-cases (leb limit count)) [
    | inl full ↦ rw full (grind (arith, nothing, room))
    | inr free ↦ rw free (later room)
  ]
  chosen-limit (some n) later = elim (Bool-cases (leb limit (suc count))) [
    | inl full ↦ rw full (grind (arith, nothing, room))
    | inr free ↦ rw free (
        let after : suc count + length more.selected ≤ max 1 limit = later (ground (arith, free)) in
        omega (arith, after))
  ]

select_loop-limit :
    (r : Router) (peer : String) (count : ℕ) (copies pending : Dict ℕ) (bs : List Bundle)
    → count < max 1 r.max_bundles_per_exchange
    → count + length (select_loop r peer count copies pending bs).selected
      ≤ max 1 r.max_bundles_per_exchange
unfolding select_loop
select_loop-limit r peer count copies pending [] h = omega arith
select_loop-limit r peer count copies pending (b ∷ rest) h =
    let (copies', assigned) = assign r peer b copies in
    chosen-limit b r.max_bundles_per_exchange count
      (record { selected = []; left = copies'; pending = noted b assigned pending })
      (select_loop r peer (counted assigned count) copies' (noted b assigned pending) rest) refl h
      assigned
      (select_loop-limit r peer (counted assigned count) copies' (noted b assigned pending) rest)

-- One exchange selects no more bundles than its limit, which counts as at least one.
pub select_from-limit :
    (r : Router) (peer : String) (current : List String) (candidates : List Bundle)
    → length (select_from r peer current candidates).0 ≤ max 1 r.max_bundles_per_exchange
unfolding select_from
select_from-limit r peer current candidates =
    omega
      (arith, select_loop-limit r peer 0 (keep_ids current r.copies) [] candidates (omega arith))
