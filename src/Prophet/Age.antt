-- ===== src/Prophet/Age.antt =====
-- The selected bundles, sorted by age, and the candidates that the peer lacks.
use meshpay.Base.{
  ltb_ℤ, ◌≡◌, ap, ◌∙◌, true, false, not, String, ℤ, List, [], ◌∷◌, All, contains, filter, eq_iff,
  arith, Bool-cases, inl, inr, map, ◌⊎◌,
}
use meshpay.Bundle.{Bundle}
use meshpay.Store.Order.{IsAmong, AreInOrder}
use meshpay.Prophet.{insert_by_age, sort_by_age}

insert_by_age-All :
    (P : Bundle → Type 0) (b : Bundle) (xs : List Bundle)
    → P b
    → All P xs
    → All P (insert_by_age b xs)
unfolding insert_by_age
insert_by_age-All P b [] pb h = (pb, tt)
insert_by_age-All P b (x ∷ xs) pb (px, h) = elim (Bool-cases (ltb_ℤ x.created_at b.created_at)) [
  | inl older ↦ rw older (px, insert_by_age-All P b xs pb h)
  | inr newer ↦ rw newer (pb, (px, h))
]

pub sort_by_age-All : (P : Bundle → Type 0) (xs : List Bundle) → All P xs → All P (sort_by_age xs)
unfolding sort_by_age
sort_by_age-All P [] h = tt
sort_by_age-All P (x ∷ xs) (px, h) =
    insert_by_age-All P x (sort_by_age xs) px (sort_by_age-All P xs h)

-- The second bundle is not older than the first.
abbrev pub IsNotYounger : Bundle → Bundle → Type 0
IsNotYounger a b = ltb_ℤ b.created_at a.created_at ≡ false

asym : (a b : ℤ) → ltb_ℤ a b ≡ true → ltb_ℤ b a ≡ false
asym a b h = ground (arith, h)

trans : (a b c : ℤ) → ltb_ℤ a b ≡ false → ltb_ℤ b c ≡ false → ltb_ℤ a c ≡ false
trans a b c h k = ground (arith, h, k)

later_all :
    (b x : Bundle) (xs : List Bundle)
    → IsNotYounger b x
    → All (IsNotYounger x) xs
    → All (IsNotYounger b) xs
later_all b x [] h hs = tt
later_all b x (y ∷ ys) h (k, hs) =
    (trans y.created_at x.created_at b.created_at k h, later_all b x ys h hs)

insert_by_age-AreInOrder :
    (b : Bundle) (xs : List Bundle)
    → AreInOrder IsNotYounger xs
    → AreInOrder IsNotYounger (insert_by_age b xs)
unfolding insert_by_age
insert_by_age-AreInOrder b [] h = (tt, tt)
insert_by_age-AreInOrder b (x ∷ xs) (before, h) =
    elim (Bool-cases (ltb_ℤ x.created_at b.created_at)) [
      | inl older ↦ rw older (
        insert_by_age-All (IsNotYounger x) b xs (asym x.created_at b.created_at older) before,
        insert_by_age-AreInOrder b xs h,
      )
      | inr newer ↦ rw newer ((newer, later_all b x xs newer before), (before, h))
    ]

pub sort_by_age-AreInOrder : (xs : List Bundle) → AreInOrder IsNotYounger (sort_by_age xs)
unfolding sort_by_age
sort_by_age-AreInOrder [] = tt
sort_by_age-AreInOrder (x ∷ xs) =
    insert_by_age-AreInOrder x (sort_by_age xs) (sort_by_age-AreInOrder xs)

insert_by_age-IsAmong :
    (b : Bundle) (xs : List Bundle) (e : Bundle)
    → (b ≡ e) ⊎ IsAmong e xs
    → IsAmong e (insert_by_age b xs)
unfolding insert_by_age
insert_by_age-IsAmong b [] e h = h
insert_by_age-IsAmong b (x ∷ xs) e h = elim (Bool-cases (ltb_ℤ x.created_at b.created_at)) [
  | inr newer ↦ rw newer h
  | inl older ↦ rw older (elim h [
    | inl this ↦ inr (insert_by_age-IsAmong b xs e (inl this))
    | inr (inl here) ↦ inl here
    | inr (inr there) ↦ inr (insert_by_age-IsAmong b xs e (inr there))
  ])
]

pub sort_by_age-IsAmong :
    (xs : List Bundle) (e : Bundle) → IsAmong e xs → IsAmong e (sort_by_age xs)
unfolding sort_by_age
sort_by_age-IsAmong [] e h = h
sort_by_age-IsAmong (x ∷ xs) e (inl this) = insert_by_age-IsAmong x _ e (inl this)
sort_by_age-IsAmong (x ∷ xs) e (inr there) =
    insert_by_age-IsAmong x _ e (inr (sort_by_age-IsAmong xs e there))

pub filter-IsAmong :
    (known : List String) (xs : List Bundle) (e : Bundle)
    → contains e.bundle_id known ≡ false
    → IsAmong e xs
    → IsAmong e (filter (λ b. not (contains b.bundle_id known)) xs)
filter-IsAmong known [] e new h = h
filter-IsAmong known (x ∷ xs) e new (inl this) =
    let lacking : contains x.bundle_id known ≡ false =
      ap (λ (b : Bundle). contains b.bundle_id known) this ∙ new in
    rw lacking (inl this)
filter-IsAmong known (x ∷ xs) e new (inr there) =
    let rest = filter-IsAmong known xs e new there in
    elim (Bool-cases (contains x.bundle_id known)) [
      | inl old ↦ rw old rest
      | inr lacking ↦ rw lacking (inr rest)
    ]

pub filter-from :
    (known : List String) (xs : List Bundle) (e : Bundle)
    → IsAmong e (filter (λ b. not (contains b.bundle_id known)) xs)
    → IsAmong e xs
filter-from known [] e h = h
filter-from known (x ∷ xs) e h = elim (Bool-cases (contains x.bundle_id known)) [
  | inl old ↦ inr (filter-from known xs e (rw old at h))
  | inr lacking ↦ elim (unpack lacking h) [
    | inl this ↦ inl this
    | inr there ↦ inr (filter-from known xs e there)
  ]
]
  where
    unpack :
        contains x.bundle_id known ≡ false
        → IsAmong e (filter (λ b. not (contains b.bundle_id known)) (x ∷ xs))
        → (x ≡ e) ⊎ IsAmong e (filter (λ b. not (contains b.bundle_id known)) xs)
    unpack lacking k = rw lacking at k

pub map-IsAmong :
    (xs : List Bundle) (e : Bundle)
    → IsAmong e xs
    → contains e.bundle_id (map (λ b. b.bundle_id) xs) ≡ true
map-IsAmong [] e h = absurd h
map-IsAmong (x ∷ xs) e (inl this) =
    let same : x.bundle_id ≡ e.bundle_id = ap (λ (b : Bundle). b.bundle_id) this in
    ground (arith, same, eq_iff x.bundle_id e.bundle_id)
map-IsAmong (x ∷ xs) e (inr there) = ground (arith, map-IsAmong xs e there)
