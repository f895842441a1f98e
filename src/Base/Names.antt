-- ===== src/Base/Names.antt =====
-- Collections of names: Python's `set` of texts as a list without repeats, and `sorted`.
use Prim.Native.Nat.{Ordering, suc, ◌<◌}
use Prim.Native.String.{String, compare}
use mathlib.Core.Path.{◌≡◌, refl, sym, ◌∙◌, ap}
use mathlib.Core.Logic.{◌≢◌, inl, inr}
use mathlib.Core.Bool.{Bool, true, false}
use mathlib.Core.List.{List, [], ◌∷◌}
use native.Mathlib.Omega.{arith}
use meshpay.Base.Tests.{eq_iff, if◌then◌else◌, Bool-cases}
use meshpay.Base.Lists.{contains, All, length}

-- `set(names)`, by the order of the last occurrences.
abbrev pub unique : List String → List String
unique [] = []
unique (x ∷ xs) = let rest = unique xs in if contains x rest then rest else x ∷ rest

abbrev pub is_before : String → String → Bool
is_before a b = elim (compare a b) [ Ordering.lt ↦ true | _ ↦ false ]

abbrev pub insert_name : String → List String → List String
insert_name x [] = x ∷ []
insert_name x (y ∷ ys) = if is_before y x then y ∷ insert_name x ys else x ∷ y ∷ ys

-- `sorted(names)`
abbrev pub sort_names : List String → List String
sort_names [] = []
sort_names (x ∷ xs) = insert_name x (sort_names xs)

-- The names differ from each other.
abbrev pub IsNodup : List String → Type 0
IsNodup [] = Unit
IsNodup (x ∷ xs) = All (λ y. y ≢ x) xs × IsNodup xs

pub contains-false : (x : String) (xs : List String) → contains x xs ≡ false → All (λ y. y ≢ x) xs
contains-false x [] h = tt
contains-false x (y ∷ ys) h = (ground (arith, eq_iff y x), contains-false x ys (ground arith))

pub contains-true : (x : String) (xs : List String) → contains x xs ≡ true → All (λ y. y ≢ x) xs → ⊥
contains-true x [] h n = cc
contains-true x (y ∷ ys) h n = ground (arith, eq_iff y x, contains-true x ys)

pub unique-IsNodup : (xs : List String) → IsNodup (unique xs)
unique-IsNodup [] = tt
unique-IsNodup (x ∷ xs) = elim (Bool-cases (contains x (unique xs))) [
  | inl old ↦ rw old (unique-IsNodup xs)
  | inr new ↦ rw new (contains-false x (unique xs) new, unique-IsNodup xs)
]

All-insert_name {κ} :
    (P : String → Type κ) (x : String) (xs : List String)
    → P x
    → All P xs
    → All P (insert_name x xs)
All-insert_name P x [] p h = (p, tt)
All-insert_name P x (y ∷ ys) p h = elim (Bool-cases (is_before y x)) [
  | inl first ↦ rw first (h.0, All-insert_name P x ys p h.1)
  | inr later ↦ rw later (p, h)
]

pub All-sort_names {κ} : (P : String → Type κ) (xs : List String) → All P xs → All P (sort_names xs)
All-sort_names P [] h = tt
All-sort_names P (x ∷ xs) h = All-insert_name P x (sort_names xs) h.0 (All-sort_names P xs h.1)

insert_name-IsNodup :
    (x : String) (xs : List String) → All (λ y. y ≢ x) xs → IsNodup xs → IsNodup (insert_name x xs)
insert_name-IsNodup x [] n d = (tt, tt)
insert_name-IsNodup x (y ∷ ys) n d = elim (Bool-cases (is_before y x)) [
  | inl first ↦ rw first (
    All-insert_name (λ z. z ≢ y) x ys (λ same. n.0 (sym same)) d.0,
    insert_name-IsNodup x ys n.1 d.1,
  )
  | inr later ↦ rw later (n, d)
]

-- Sorting keeps the names different.
pub sort_names-IsNodup : (xs : List String) → IsNodup xs → IsNodup (sort_names xs)
sort_names-IsNodup [] d = tt
sort_names-IsNodup (x ∷ xs) d =
    insert_name-IsNodup x (sort_names xs) (All-sort_names (λ y. y ≢ x) xs d.0)
      (sort_names-IsNodup xs d.1)

pub All-unique {κ} : (P : String → Type κ) (xs : List String) → All P xs → All P (unique xs)
All-unique P [] h = tt
All-unique P (x ∷ xs) h = elim (Bool-cases (contains x (unique xs))) [
  | inl old ↦ rw old (All-unique P xs h.1)
  | inr new ↦ rw new (h.0, All-unique P xs h.1)
]

length-insert_name : (x : String) (xs : List String) → length (insert_name x xs) ≡ suc (length xs)
length-insert_name x [] = refl
length-insert_name x (y ∷ ys) = ground (arith, length-insert_name x ys)

pub length-sort_names : (xs : List String) → length (sort_names xs) ≡ length xs
length-sort_names [] = refl
length-sort_names (x ∷ xs) = length-insert_name x (sort_names xs) ∙ ap suc (length-sort_names xs)

contains-length : (x : String) (xs : List String) → contains x xs ≡ true → 0 < length xs
contains-length x [] h = absurd (cc)
contains-length x (y ∷ ys) h = omega arith

-- A set of something is not empty.
pub length-unique_pos : (xs : List String) → 0 < length xs → 0 < length (unique xs)
length-unique_pos [] h = absurd (omega arith)
length-unique_pos (x ∷ xs) h = elim (Bool-cases (contains x (unique xs))) [
  | inl old ↦ rw old (contains-length x (unique xs) old)
  | inr new ↦ rw new (omega arith)
]
