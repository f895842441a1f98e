-- ===== src/Base/Dicts.antt =====
-- A Python dict keyed by texts, in insertion order.
use Prim.Native.Nat.{ℕ, ◌+◌}
use Prim.Native.String.{String}
use mathlib.Core.Path.{◌≡◌, refl}
use mathlib.Core.Logic.{◌≢◌}
use mathlib.Core.Bool.{Bool, true, false}
use mathlib.Core.Option.{Option, none, some}
use mathlib.Core.List.{List, [], ◌∷◌}
use native.Mathlib.Omega.{arith}
use mathlib.Core.Logic.{inl, inr}
use meshpay.Base.Lists.{All}
use meshpay.Base.Tests.{◌==◌, eq_iff, if◌then◌else◌, Bool-cases}

abbrev pub Dict {ℓ} : Type ℓ → Type ℓ
Dict V = List (String × V)

module _ {ℓ} {V : Type ℓ} where
  -- `d.get(k)`
  abbrev pub lookup : String → Dict V → Option V
  lookup k [] = none
  lookup k ((j, v) ∷ d) = if j == k then some v else lookup k d

  -- `k in d`
  abbrev pub has_key : String → Dict V → Bool
  has_key k d = elim (lookup k d) [ none ↦ false | some _ ↦ true ]

  -- `d[k] = v`
  abbrev pub insert : String → V → Dict V → Dict V
  insert k v [] = (k, v) ∷ []
  insert k v ((j, w) ∷ d) = if j == k then (j, v) ∷ d else (j, w) ∷ insert k v d

  -- `d.pop(k, None)`
  abbrev pub erase : String → Dict V → Dict V
  erase k [] = []
  erase k ((j, w) ∷ d) = if j == k then d else (j, w) ∷ erase k d

  pub lookup-insert :
      (k j : String) (v : V) (d : Dict V)
      → lookup j (insert k v d) ≡ (if k == j then some v else lookup j d)
  lookup-insert k j v [] = refl
  lookup-insert k j v ((i, w) ∷ d) =
      ground (arith, eq_iff k j, eq_iff i k, eq_iff i j, lookup-insert k j v d)

  pub lookup-erase_ne : (k j : String) (d : Dict V) → k ≢ j → lookup j (erase k d) ≡ lookup j d
  lookup-erase_ne k j [] h = refl
  lookup-erase_ne k j ((i, w) ∷ d) h = grind (arith, eq_iff, lookup-erase_ne k j d h)

  pub has_key-lookup : (k : String) (d : Dict V) {v : V} → lookup k d ≡ some v → has_key k d ≡ true
  has_key-lookup k d h = rw (h, has_key)

-- The sum of a dict's numbers.
abbrev pub sum_values : Dict ℕ → ℕ
sum_values [] = 0
sum_values ((k, v) ∷ d) = v + sum_values d

pub sum_values-insert :
    (k : String) (v old : ℕ) (d : Dict ℕ)
    → lookup k d ≡ some old
    → sum_values (insert k v d) + old ≡ sum_values d + v
sum_values-insert k v old [] h = cc
sum_values-insert k v old ((j, w) ∷ d) h = ground (arith, sum_values-insert k v old d)

module _ {ℓ} {V : Type ℓ} where
  abbrev pub keys : Dict V → List String
  keys [] = []
  keys ((k, _) ∷ d) = k ∷ keys d

  -- Assigning to a key that is there adds no key.
  pub keys-insert :
      (k : String) (v : V) (d : Dict V) → lookup k d ≢ none → keys (insert k v d) ≡ keys d
  keys-insert k v [] h = absurd (h refl)
  keys-insert k v ((j, w) ∷ d) h = ground (arith, keys-insert k v d)

-- A predicate of the values of a dict holds of one that is assigned.
pub All-insert {ℓ κ} :
    {V : Type ℓ} (P : V → Type κ) (k : String) (v : V) (d : Dict V)
    → P v
    → All (λ e. P e.1) d
    → All (λ e. P e.1) (insert k v d)
All-insert P k v [] pv h = (pv, tt)
All-insert P k v ((j, w) ∷ d) pv (pw, h) = elim (Bool-cases (j == k)) [
  | inl same ↦ rw same (pv, h)
  | inr other ↦ rw other (pw, All-insert P k v d pv h)
]
