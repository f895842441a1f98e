-- ===== src/Store/Unknown.antt =====
-- The bundles that are offered to a peer.
use meshpay.Base.{
  lookup, ◌==◌, eq_iff, ◌⊎◌, ◌≤◌, ◌≡◌, refl, ap, ◌∙◌, Bool, false, Option, some, String, Dict, List,
  [], ◌∷◌, All, map, contains, length, take, ltb_ℤ, ℤ, pos, negsuc, pos_part, arith, Bool-cases,
  inl, inr,
}
use meshpay.Store.Order.{
  IsAmong, AreInOrder, take-All, length-take, weaken-All, weaken-AreInOrder, take-AreInOrder,
  take-IsAmong,
}
use meshpay.Store.Priority.{MayPrecede, precedes_asym, precedes_trans, not_precedes}
use meshpay.Bundle.{Bundle, expired}
use meshpay.Store.Kept.{lookup-drop_where}
use meshpay.Store.Save.{drop_where-All}
use meshpay.Store.{
  Store, precedes, insert_by, sort_by, without_ids, drop_where, delete_where, prune_expired, cut,
  unknown_to_peer,
}

-- Every bundle stands under its id.
abbrev pub IsKeyed : Dict Bundle → Type 0
IsKeyed d = All (λ e. e.1.bundle_id ≡ e.0) d

-- What the peer may be offered.
abbrev pub IsOffer : ℤ → List String → Dict Bundle → Bundle → Type 0
IsOffer now known stored b =
    IsAmong b (map (λ e. e.1) stored)
    × (expired now b ≡ false)
    × (contains b.bundle_id known ≡ false)

module _ (peer : Option String) where
  abbrev IsBefore : Bundle → Bundle → Type 0
  IsBefore a b = precedes peer b a ≡ false

  abbrev IsSorted : List Bundle → Type 0
  IsSorted xs = AreInOrder IsBefore xs

  module _ (P : Bundle → Type 0) where
    insert_by-All : (b : Bundle) (xs : List Bundle) → P b → All P xs → All P (insert_by peer b xs)
    unfolding insert_by
    insert_by-All b [] pb h = (pb, tt)
    insert_by-All b (x ∷ xs) pb (px, h) = elim (Bool-cases (precedes peer x b)) [
      | inl first ↦ rw first (px, insert_by-All b xs pb h)
      | inr second ↦ rw second (pb, (px, h))
    ]

    sort_by-All : (xs : List Bundle) → All P xs → All P (sort_by peer xs)
    unfolding sort_by
    sort_by-All [] h = tt
    sort_by-All (x ∷ xs) (px, h) = insert_by-All x (sort_by peer xs) px (sort_by-All xs h)

  all_later :
      (b x : Bundle) (xs : List Bundle)
      → precedes peer x b ≡ false
      → All (λ y. precedes peer y x ≡ false) xs
      → All (λ y. precedes peer y b ≡ false) xs
  all_later b x [] h hs = tt
  all_later b x (y ∷ ys) h (k, hs) = (precedes_trans peer y x b k h, all_later b x ys h hs)

  insert_by-IsSorted :
      (b : Bundle) (xs : List Bundle) → IsSorted xs → IsSorted (insert_by peer b xs)
  unfolding insert_by
  insert_by-IsSorted b [] h = (tt, tt)
  insert_by-IsSorted b (x ∷ xs) (before, h) = elim (Bool-cases (precedes peer x b)) [
    | inl first ↦ rw first (
      insert_by-All (λ y. precedes peer y x ≡ false) b xs (precedes_asym peer x b first) before,
      insert_by-IsSorted b xs h,
    )
    | inr second ↦ rw second ((second, all_later b x xs second before), (before, h))
  ]

  sort_by-IsSorted : (xs : List Bundle) → IsSorted (sort_by peer xs)
  unfolding sort_by
  sort_by-IsSorted [] = tt
  sort_by-IsSorted (x ∷ xs) = insert_by-IsSorted x (sort_by peer xs) (sort_by-IsSorted xs)

entries_within :
    (stored : List Bundle) (d : Dict Bundle)
    → ((b : Bundle) → IsAmong b (map (λ e. e.1) d) → IsAmong b stored)
    → All (λ e. IsAmong e.1 stored) d
entries_within stored [] within = tt
entries_within stored ((id, b) ∷ rest) within =
    (within b (inl refl), entries_within stored rest (λ e h. within e (inr h)))

drop_where-IsAmong :
    (stored : List Bundle) (p : Bundle → Bool) (d : Dict Bundle)
    → All (λ e. IsAmong e.1 stored) d
    → All (λ e. IsAmong e.1 stored) (drop_where p d)
unfolding drop_where
drop_where-IsAmong stored p [] h = tt
drop_where-IsAmong stored p ((id, b) ∷ rest) (mine, h) = elim (Bool-cases (p b)) [
  | inl hit ↦ rw hit (drop_where-IsAmong stored p rest h)
  | inr miss ↦ rw miss (mine, drop_where-IsAmong stored p rest h)
]

without_ids-IsOffer :
    (now : ℤ) (known : List String) (stored d : Dict Bundle)
    → All (λ e. IsAmong e.1 (map (λ e. e.1) stored)) d
    → IsKeyed d
    → All (λ e. expired now e.1 ≡ false) d
    → All (IsOffer now known stored) (without_ids known d)
unfolding without_ids
without_ids-IsOffer now known stored [] mine keyed fresh = tt
without_ids-IsOffer now known stored ((id, b) ∷ rest) (own, mine) (same, keyed) (alive, fresh) =
    let later = without_ids-IsOffer now known stored rest mine keyed fresh in
    elim (Bool-cases (contains id known)) [
      | inl there ↦ rw there later
      | inr new ↦ rw new ((own, alive, ap (λ k. contains k known) same ∙ new), later)
    ]

pub drop_where-IsKeyed :
    (p : Bundle → Bool) (d : Dict Bundle) → IsKeyed d → IsKeyed (drop_where p d)
unfolding drop_where
drop_where-IsKeyed p [] h = tt
drop_where-IsKeyed p ((id, b) ∷ rest) (same, h) = elim (Bool-cases (p b)) [
  | inl hit ↦ rw hit (drop_where-IsKeyed p rest h)
  | inr miss ↦ rw miss (same, drop_where-IsKeyed p rest h)
]

cut-some : (limit : ℤ) (bs : List Bundle) → cut (some limit) bs ≡ take (pos_part limit) bs
unfolding cut
cut-some (pos n) bs = refl
cut-some (negsuc n) bs = refl

insert_by-IsAmong :
    (peer : Option String) (b : Bundle) (xs : List Bundle) (e : Bundle)
    → (b ≡ e) ⊎ IsAmong e xs
    → IsAmong e (insert_by peer b xs)
unfolding insert_by
insert_by-IsAmong peer b [] e h = h
insert_by-IsAmong peer b (x ∷ xs) e h = elim (Bool-cases (precedes peer x b)) [
  | inr second ↦ rw second h
  | inl first ↦ rw first (elim h [
    | inl this ↦ inr (insert_by-IsAmong peer b xs e (inl this))
    | inr (inl here) ↦ inl here
    | inr (inr there) ↦ inr (insert_by-IsAmong peer b xs e (inr there))
  ])
]

sort_by-IsAmong :
    (peer : Option String) (xs : List Bundle) (e : Bundle)
    → IsAmong e xs
    → IsAmong e (sort_by peer xs)
unfolding sort_by
sort_by-IsAmong peer [] e h = h
sort_by-IsAmong peer (x ∷ xs) e (inl this) = insert_by-IsAmong peer x _ e (inl this)
sort_by-IsAmong peer (x ∷ xs) e (inr there) =
    insert_by-IsAmong peer x _ e (inr (sort_by-IsAmong peer xs e there))

without_ids-IsAmong :
    (known : List String) (d : Dict Bundle) (k : String) (e : Bundle)
    → lookup k d ≡ some e
    → contains k known ≡ false
    → IsAmong e (without_ids known d)
unfolding without_ids
without_ids-IsAmong known [] k e there new = absurd (cc)
without_ids-IsAmong known ((id, b) ∷ rest) k e there new = elim (Bool-cases (id == k)) [
  | inl here ↦
      let same : id ≡ k = ground (arith, here, eq_iff id k) in
      let lacking : contains id known ≡ false = ap (λ x. contains x known) same ∙ new in
      rw lacking (inl (ground (arith, here, there)))
  | inr other ↦
      let later = without_ids-IsAmong known rest k e (ground (arith, other, there)) new in
      elim (Bool-cases (contains id known)) [
        | inl old ↦ rw old later
        | inr lacking ↦ rw lacking (inr later)
      ]
]

-- What `unknown_to_peer` returns for a limit, from a store in which every bundle stands under its id:
-- at most that many bundles of the store, none expired and none that the peer has; confirmations
-- before signed orders before orders before all else, of one type those for the peer first, and of
-- these the older ones. A bundle of the store that is not expired and that the peer lacks is among
-- them, or they are as many as the limit and none should come after it. Every bundle of the store
-- still stands under its id.
pub unknown_to_peer-offers :
    (now limit : ℤ) (known : List String) (peer : Option String) (st : Store)
    → IsKeyed st.bundles
    → (length (unknown_to_peer now known peer (some limit) st).0 ≤ pos_part limit)
      × All (IsOffer now known st.bundles) (unknown_to_peer now known peer (some limit) st).0
      × AreInOrder (MayPrecede peer) (unknown_to_peer now known peer (some limit) st).0
      × ((k : String) (e : Bundle)
          → lookup k st.bundles ≡ some e
          → expired now e ≡ false
          → contains k known ≡ false
          → IsAmong e (unknown_to_peer now known peer (some limit) st).0
            ⊎ ((length (unknown_to_peer now known peer (some limit) st).0 ≡ pos_part limit)
                × All
                    (λ x. MayPrecede peer x e)
                    (unknown_to_peer now known peer (some limit) st).0))
      × IsKeyed (unknown_to_peer now known peer (some limit) st).1.bundles
unfolding unknown_to_peer prune_expired delete_where
unknown_to_peer-offers now limit known peer st keyed =
    let kept = drop_where (expired now) st.bundles in
    let kept_keyed = drop_where-IsKeyed (expired now) st.bundles keyed in
    let sorted = sort_by peer (without_ids known kept) in
    let in_order = sort_by-IsSorted peer (without_ids known kept) in
    elim (Bool-cases (ltb_ℤ (pos 0) limit)) [
      | inr none_wanted ↦
          rw none_wanted (
            omega arith,
            tt,
            tt,
            λ k e there alive new. inr (ground (arith, none_wanted), tt),
            keyed,
          )
      | inl some_wanted ↦
          rw (some_wanted, cut-some limit sorted)
            (
              length-take (pos_part limit) sorted,
              take-All (IsOffer now known st.bundles) (pos_part limit) sorted (
                  sort_by-All peer (IsOffer now known st.bundles) (without_ids known kept) (
                    without_ids-IsOffer now known st.bundles kept
                      (drop_where-IsAmong (map (λ e. e.1) st.bundles) (expired now) st.bundles
                        (entries_within (map (λ e. e.1) st.bundles) st.bundles (λ b h. h)))
                      kept_keyed (drop_where-All (expired now) st.bundles))),
              weaken-AreInOrder (IsBefore peer) (MayPrecede peer) (not_precedes peer)
                  (take (pos_part limit) sorted)
                  (take-AreInOrder (IsBefore peer) (pos_part limit) sorted in_order),
              λ k e there alive new.
                  elim (take-IsAmong (IsBefore peer) (pos_part limit) sorted e in_order (
                    sort_by-IsAmong peer (without_ids known kept) e (
                      without_ids-IsAmong known kept k e
                        (lookup-drop_where (expired now) k e st.bundles there alive) new))) [
                          | inl among ↦ inl among
                          | inr (full, ahead) ↦ inr (
                            full,
                            weaken-All (λ x. IsBefore peer x e) (λ x. MayPrecede peer x e)
                                (λ x. not_precedes peer x e) (take (pos_part limit) sorted) ahead,
                          )
                        ],
              kept_keyed,
            )
    ]
