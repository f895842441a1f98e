-- ===== src/Weights/Remainder.antt =====
-- The order in which the remainder is handed out, and the fractions of the quotas.
use meshpay.Base.{
  ℕ, zero, suc, ◌+◌, ◌*◌, ◌≤◌, ◌<◌, ◌≡◌, refl, ap, ◌≢◌, sym, true, false, List, [], ◌∷◌, map, arith,
  take, All, length, Bool-cases, inl, inr,
}
use native.Mathlib.Decide.{dec_lt}
use native.Mathlib.Nat.{div-add-mod, mod-lt}
use meshpay.Weights.{Entry, raw_sum, floor_sum, fraction_of, comes_first, insert_sorted, sort_desc}
use meshpay.Weights.Entries.{IsNew, IsDistinct}

-- The fractions fall along the list.
abbrev pub IsDesc : List Entry → Type 0
IsDesc [] = Unit
IsDesc (x ∷ xs) = All (λ y. y.1 ≤ x.1) xs × IsDesc xs

module _ {κ} (P : Entry → Type κ) where
  pub All-insert_sorted :
      (e : Entry) (xs : List Entry) → P e → All P xs → All P (insert_sorted e xs)
  All-insert_sorted e [] p h = (p, tt)
  All-insert_sorted e (x ∷ xs) p h = elim (Bool-cases (comes_first x e)) [
    | inl first ↦ rw first (h.0, All-insert_sorted e xs p h.1)
    | inr later ↦ rw later (p, h)
  ]

  pub All-sort_desc : (xs : List Entry) → All P xs → All P (sort_desc xs)
  All-sort_desc [] h = tt
  All-sort_desc (x ∷ xs) h = All-insert_sorted x (sort_desc xs) h.0 (All-sort_desc xs h.1)

first-le : (x e : Entry) → comes_first x e ≡ true → e.1 ≤ x.1
first-le x e h = ground arith

later-le : (x e : Entry) → comes_first x e ≡ false → x.1 ≤ e.1
later-le x e h = ground arith

All-le_trans : (a b : ℕ) (xs : List Entry) → a ≤ b → All (λ y. y.1 ≤ a) xs → All (λ y. y.1 ≤ b) xs
All-le_trans a b [] h k = tt
All-le_trans a b (x ∷ xs) h k = (omega arith, All-le_trans a b xs h k.1)

insert_sorted-IsDesc : (e : Entry) (xs : List Entry) → IsDesc xs → IsDesc (insert_sorted e xs)
insert_sorted-IsDesc e [] d = (tt, tt)
insert_sorted-IsDesc e (x ∷ xs) d = elim (Bool-cases (comes_first x e)) [
  | inl first ↦ rw first (
    All-insert_sorted (λ y. y.1 ≤ x.1) e xs (first-le x e first) d.0,
    insert_sorted-IsDesc e xs d.1,
  )
  | inr later ↦ rw later ((later-le x e later, All-le_trans x.1 e.1 xs (later-le x e later) d.0), d)
]

-- The sort puts larger fractions first.
pub sort_desc-IsDesc : (xs : List Entry) → IsDesc (sort_desc xs)
sort_desc-IsDesc [] = tt
sort_desc-IsDesc (x ∷ xs) = insert_sorted-IsDesc x (sort_desc xs) (sort_desc-IsDesc xs)

insert_sorted-IsDistinct :
    (e : Entry) (xs : List Entry) → IsNew e.0 xs → IsDistinct xs → IsDistinct (insert_sorted e xs)
insert_sorted-IsDistinct e [] n d = (tt, tt)
insert_sorted-IsDistinct e (x ∷ xs) n d = elim (Bool-cases (comes_first x e)) [
  | inl first ↦ rw first (
    All-insert_sorted (λ y. y.0 ≢ x.0) e xs (λ same. n.0 (sym same)) d.0,
    insert_sorted-IsDistinct e xs n.1 d.1,
  )
  | inr later ↦ rw later (n, d)
]

pub sort_desc-IsDistinct : (xs : List Entry) → IsDistinct xs → IsDistinct (sort_desc xs)
sort_desc-IsDistinct [] d = tt
sort_desc-IsDistinct (x ∷ xs) d =
    insert_sorted-IsDistinct x (sort_desc xs) (All-sort_desc (λ y. y.0 ≢ x.0) xs d.0)
      (sort_desc-IsDistinct xs d.1)

raw_sum-insert_sorted :
    (e : Entry) (xs : List Entry) → raw_sum (insert_sorted e xs) ≡ e.1 + raw_sum xs
raw_sum-insert_sorted e [] = refl
raw_sum-insert_sorted e (x ∷ xs) = elim (Bool-cases (comes_first x e)) [
  | inl first ↦ rw first (omega (arith, raw_sum-insert_sorted e xs))
  | inr later ↦ rw later
]

pub raw_sum-sort_desc : (xs : List Entry) → raw_sum (sort_desc xs) ≡ raw_sum xs
raw_sum-sort_desc [] = refl
raw_sum-sort_desc (x ∷ xs) =
    omega (arith, raw_sum-insert_sorted x (sort_desc xs), raw_sum-sort_desc xs)

raw_sum_of_zeros : (xs : List Entry) → All (λ y. y.1 ≤ 0) xs → raw_sum xs ≡ 0
raw_sum_of_zeros [] h = refl
raw_sum_of_zeros (x ∷ xs) h = omega (arith, raw_sum_of_zeros xs h.1)

-- The first `m` fractions are positive where the fractions, each below one unit, add up to `m` units.
pub take-positive :
    (unit m : ℕ) (xs : List Entry)
    → 0 < unit
    → IsDesc xs
    → All (λ y. y.1 < unit) xs
    → m * unit ≤ raw_sum xs
    → All (λ y. 0 < y.1) (take m xs) × (length (take m xs) ≡ m)
take-positive unit zero xs u d b h = (tt, refl)
take-positive unit (suc m) [] u d b h = absurd (omega arith)
take-positive unit (suc m) (x ∷ xs) u d b h = elim (dec_lt 0 x.1) [
  | yes p ↦
      let (positive, taken) = take-positive unit m xs u d.1 b.1 (omega arith) in
      ((p, positive), ap suc taken)
  | no p ↦ absurd (omega (arith, raw_sum_of_zeros xs (All-le_trans x.1 0 xs (omega arith) d.0)))
]

-- Whole units and fractions make up the quotas.
pub floor_sum-fractions :
    (budget total : ℕ) (es : List Entry)
    → total * floor_sum budget total es + raw_sum (map (fraction_of budget total) es)
      ≡ raw_sum es * budget
floor_sum-fractions budget total [] = omega arith
floor_sum-fractions budget total (e ∷ es) =
    omega (arith, floor_sum-fractions budget total es, div-add-mod (e.1 * budget) total)

pub fractions-lt :
    (budget total : ℕ) (es : List Entry)
    → 0 < total
    → All (λ y. y.1 < total) (map (fraction_of budget total) es)
fractions-lt budget total [] h = tt
fractions-lt budget total (e ∷ es) h = (mod-lt (e.1 * budget) h, fractions-lt budget total es h)
