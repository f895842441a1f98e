-- ===== src/Prophet/Replicas.antt =====
-- The replication budget.
use meshpay.Base.{
  All-map, ℕ, ◌≤◌, ltb, ◌≡◌, refl, sym, ◌∙◌, true, ◌&&◌, ◌||◌, String, ◌==◌, eq_iff, if◌then◌else◌,
  List, [], ◌∷◌, All, contains, length, Dict, lookup, insert, lookup-insert, arith, Bool-cases, inl,
  inr, ◌⊎◌,
}
use mathlib.Core.Option.{get_or}
use meshpay.Bundle.{Bundle}
use meshpay.Store.{add_name}
use meshpay.Store.Save.{contains-add_name}
use meshpay.Store.Order.{take-All}
use meshpay.Prophet.Age.{sort_by_age-All}
use meshpay.Prophet.{
  Floats, Prophet, forwarded, with_entry, can_replicate, is_forwarded, select_loop, note_forwarded,
  keep_history, select_from,
}

forwarded-insert :
    (k id : String) (peers : List String) (ds : Dict (List String))
    → get_or (lookup k (insert id peers ds)) []
      ≡ (if id == k then peers else get_or (lookup k ds) [])
forwarded-insert k id peers ds = ground (arith, lookup-insert id k peers ds)

module _ (f : Floats) where
  -- No bundle was forwarded to more peers than the budget.
  abbrev pub IsWithin : ℕ → Dict (List String) → Type 0
  IsWithin budget ds = (id : String) → length (forwarded f id ds) ≤ budget

  forwarded-with_entry :
      (k id : String) (ds : Dict (List String))
      → forwarded f k (with_entry f id ds) ≡ forwarded f k ds
  forwarded-with_entry k id ds = ground (arith, forwarded-insert k id [] ds, eq_iff id k)

  forwarded-keep_history :
      (k : String) (current : List String) (ds : Dict (List String))
      → forwarded f k (keep_history current ds)
        ≡ (if contains k current then forwarded f k ds else [])
  unfolding keep_history
  forwarded-keep_history k current [] = ground arith
  forwarded-keep_history k current ((id, peers) ∷ rest) =
      ground (arith, forwarded-keep_history k current rest, eq_iff id k)

  module _ (r : Prophet f) (preds : Dict f.Float) (peer : String) where
    -- Another peer may be noted for the bundle, or is there already.
    abbrev Allows : Dict (List String) → Bundle → Type 0
    Allows ds b =
        ((b.dst == peer) ≡ true)
        ⊎ ((contains peer (forwarded f b.bundle_id ds)
              || ltb (length (forwarded f b.bundle_id ds)) r.replication_budget)
            ≡ true)

    Allows-same :
        (ds es : Dict (List String)) (b : Bundle)
        → ((k : String) → forwarded f k es ≡ forwarded f k ds)
        → Allows es b
        → Allows ds b
    Allows-same ds es b same (inl direct) = inl direct
    Allows-same ds es b same (inr some_left) = inr (rw (same b.bundle_id) at some_left)

    All-same :
        (ds es : Dict (List String)) (bs : List Bundle)
        → ((k : String) → forwarded f k es ≡ forwarded f k ds)
        → All (Allows es) bs
        → All (Allows ds) bs
    All-same ds es [] same h = tt
    All-same ds es (b ∷ bs) same (p, h) = (Allows-same ds es b same p, All-same ds es bs same h)

    can_replicate-same :
        (b : Bundle) (ds : Dict (List String)) (k : String)
        → forwarded f k (can_replicate f r b peer ds).1 ≡ forwarded f k ds
    unfolding can_replicate
    can_replicate-same b ds k = elim (Bool-cases (b.dst == peer)) [
      | inl direct ↦ rw direct refl
      | inr relay ↦ rw relay (forwarded-with_entry k b.bundle_id ds)
    ]

    can_replicate-Allows :
        (b : Bundle) (ds : Dict (List String))
        → (can_replicate f r b peer ds).0 ≡ true
        → Allows ds b
    unfolding can_replicate
    can_replicate-Allows b ds h = ground (arith, h)

    select_loop-same :
        (bs : List Bundle) (ds : Dict (List String)) (k : String)
        → forwarded f k (select_loop f r preds peer bs ds).1 ≡ forwarded f k ds
    unfolding select_loop
    select_loop-same [] ds k = refl
    select_loop-same (b ∷ bs) ds k =
        select_loop-same bs (can_replicate f r b peer ds).1 k ∙ can_replicate-same b ds k

    select_loop-Allows :
        (bs : List Bundle) (ds : Dict (List String))
        → All (Allows ds) (select_loop f r preds peer bs ds).0
    unfolding select_loop
    select_loop-Allows [] ds = tt
    select_loop-Allows (b ∷ bs) ds =
        let (allowed, ds') = can_replicate f r b peer ds in
        let rest = All-same ds ds' _ (can_replicate-same b ds) (select_loop-Allows bs ds') in
        elim (Bool-cases (allowed && is_forwarded f r preds peer b)) [
          | inr refused ↦ rw refused rest
          | inl taken ↦ rw taken (can_replicate-Allows b ds (ground (arith, taken)), rest)
        ]

    -- One more bundle is noted.
    module _ (b : Bundle) (ds : Dict (List String)) (allowed : Allows ds b) where
      abbrev noted : Dict (List String)
      noted =
          if b.dst == peer
          then ds
          else insert b.bundle_id (add_name peer (forwarded f b.bundle_id ds)) ds

      noted-IsWithin : IsWithin r.replication_budget ds → IsWithin r.replication_budget noted
      noted-IsWithin within k = ground (
        arith,
        allowed,
        within k,
        within b.bundle_id,
        forwarded-insert k b.bundle_id (add_name peer (forwarded f b.bundle_id ds)) ds,
      )

      noted-Allows : (c : Bundle) → Allows ds c → Allows noted c
      noted-Allows c h = ground (
        arith,
        h,
        forwarded-insert c.bundle_id b.bundle_id (add_name peer (forwarded f b.bundle_id ds)) ds,
        eq_iff b.bundle_id c.bundle_id,
        contains-add_name peer (forwarded f b.bundle_id ds),
      )

    note_forwarded-IsWithin :
        (bs : List Bundle) (ds : Dict (List String))
        → All (Allows ds) bs
        → IsWithin r.replication_budget ds
        → IsWithin r.replication_budget (note_forwarded f peer bs ds)
    unfolding note_forwarded
    note_forwarded-IsWithin [] ds allowed within = within
    note_forwarded-IsWithin (b ∷ bs) ds (allowed, h) within =
        note_forwarded-IsWithin bs (noted b ds allowed) (All-map (noted-Allows b ds allowed) bs h)
          (noted-IsWithin b ds allowed within)

-- A selection for a peer keeps the history within the budget: where no bundle was forwarded to more
-- peers than it, none was afterwards.
pub select_from-IsWithin :
    (f : Floats) (peer : String) (current : List String) (candidates : List Bundle) (r : Prophet f)
    → IsWithin f r.replication_budget r.forwarded_to
    → IsWithin f r.replication_budget (select_from f peer current candidates r).1.forwarded_to
unfolding select_from
select_from-IsWithin f peer current candidates r within =
    let preds = get_or (lookup peer r.peer_predictabilities) [] in
    let history = keep_history current r.forwarded_to in
    let (chosen, noted') = select_loop f r preds peer candidates history in
    let same = select_loop-same f r preds peer candidates history in
    let allowed =
      All-same f r preds peer noted' history chosen (λ k. sym (same k))
        (select_loop-Allows f r preds peer candidates history) in
    note_forwarded-IsWithin f r preds peer _ noted'
      (take-All _ r.max_bundles_per_exchange _ (sort_by_age-All _ chosen allowed))
      (λ id. ground (arith, same id, forwarded-keep_history f id current r.forwarded_to, within id))
