-- ===== src/Store/Order.antt =====
-- Lists of bundles in an order, and their fronts.
use mathlib.Core.Path.{subst}
use meshpay.Base.{
  ℕ, zero, suc, ◌≤◌, ◌≡◌, refl, ap, List, [], ◌∷◌, All, length, take, arith, ◌⊎◌, inl, inr,
}
use meshpay.Bundle.{Bundle}

-- One of the bundles.
abbrev pub IsAmong : Bundle → List Bundle → Type 0
IsAmong e [] = ⊥
IsAmong e (x ∷ xs) = (x ≡ e) ⊎ IsAmong e xs

-- Each bundle is related to all that are listed after it.
abbrev pub AreInOrder : (Bundle → Bundle → Type 0) → List Bundle → Type 0
AreInOrder R [] = Unit
AreInOrder R (x ∷ rest) = All (R x) rest × AreInOrder R rest

pub take-All : (P : Bundle → Type 0) (n : ℕ) (xs : List Bundle) → All P xs → All P (take n xs)
take-All P zero xs h = tt
take-All P (suc n) [] h = tt
take-All P (suc n) (x ∷ xs) (px, h) = (px, take-All P n xs h)

pub length-take : (n : ℕ) (xs : List Bundle) → length (take n xs) ≤ n
length-take zero xs = omega arith
length-take (suc n) [] = omega arith
length-take (suc n) (x ∷ xs) = omega (arith, length-take n xs)

pub All-IsAmong :
    (P : Bundle → Type 0) (xs : List Bundle) (e : Bundle) → All P xs → IsAmong e xs → P e
All-IsAmong P [] e h mine = absurd mine
All-IsAmong P (x ∷ xs) e (px, h) (inl same) = subst P same px
All-IsAmong P (x ∷ xs) e (px, h) (inr mine) = All-IsAmong P xs e h mine

pub weaken-All :
    (P Q : Bundle → Type 0) → ((b : Bundle) → P b → Q b) → (xs : List Bundle) → All P xs → All Q xs
weaken-All P Q f [] h = tt
weaken-All P Q f (x ∷ xs) (px, h) = (f x px, weaken-All P Q f xs h)

pub weaken-AreInOrder :
    (R S : Bundle → Bundle → Type 0)
    → ((a b : Bundle) → R a b → S a b)
    → (xs : List Bundle) → AreInOrder R xs
    → AreInOrder S xs
weaken-AreInOrder R S f [] h = tt
weaken-AreInOrder R S f (x ∷ xs) (before, h) =
    (weaken-All (R x) (S x) (f x) xs before, weaken-AreInOrder R S f xs h)

module _ (R : Bundle → Bundle → Type 0) where
  pub take-AreInOrder : (n : ℕ) (xs : List Bundle) → AreInOrder R xs → AreInOrder R (take n xs)
  take-AreInOrder zero xs h = tt
  take-AreInOrder (suc n) [] h = tt
  take-AreInOrder (suc n) (x ∷ xs) (before, h) =
      (take-All (R x) n xs before, take-AreInOrder n xs h)

  -- Of a list in order the front has an element, or is full of elements that are related to it.
  pub take-IsAmong :
      (n : ℕ) (xs : List Bundle) (e : Bundle)
      → AreInOrder R xs
      → IsAmong e xs
      → IsAmong e (take n xs) ⊎ ((length (take n xs) ≡ n) × All (λ x. R x e) (take n xs))
  take-IsAmong n [] e h mine = absurd mine
  take-IsAmong zero (x ∷ xs) e h mine = inr (refl, tt)
  take-IsAmong (suc n) (x ∷ xs) e (before, h) (inl this) = inl (inl this)
  take-IsAmong (suc n) (x ∷ xs) e (before, h) (inr there) = elim (take-IsAmong n xs e h there) [
    | inl among ↦ inl (inr among)
    | inr (full, ahead) ↦ inr (ap suc full, (All-IsAmong (R x) xs e before there, ahead))
  ]
