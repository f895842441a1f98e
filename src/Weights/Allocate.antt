-- ===== src/Weights/Allocate.antt =====
-- What `_allocate_weights` promises of its result.
use meshpay.Base.{
  ℕ, suc, ◌+◌, ◌-◌, ◌*◌, ◌/◌, ◌≤◌, ◌<◌, ◌≡◌, refl, ap, ◌∙◌, ◌≢◌, String, some, List, [], ◌∷◌, map,
  arith, All, length, Dict, sum_values, keys, IsNodup, eq_iff,
}
use native.Mathlib.Nat.{div-add-mod, mod-lt, le_trans, mul-le-mul_right}
use meshpay.Weights.{Entry, entry_of, zero_entry, power_cap, total_weight_units, allocate_weights}
use meshpay.Weights.Entries.{IsNew, IsDistinct, IsZeroed}
use meshpay.Weights.Settle.{IsCapped}
use meshpay.Weights.Budget.{allocate_loop_lem}

module _ (counts : Dict ℕ) where
  IsNew-entries :
      (k : String) (names : List String)
      → All (λ y. y ≢ k) names
      → IsNew k (map (entry_of counts) names)
  IsNew-entries k [] h = tt
  IsNew-entries k (x ∷ xs) h = (h.0, IsNew-entries k xs h.1)

  entries-IsDistinct :
      (names : List String) → IsNodup names → IsDistinct (map (entry_of counts) names)
  entries-IsDistinct [] d = tt
  entries-IsDistinct (x ∷ xs) d = (IsNew-entries x xs d.0, entries-IsDistinct xs d.1)

  entries-positive : (names : List String) → All (λ x. 0 < x.1) (map (entry_of counts) names)
  entries-positive [] = tt
  entries-positive (x ∷ xs) = (omega arith, entries-positive xs)

  length-entries : (names : List String) → length (map (entry_of counts) names) ≡ length names
  length-entries [] = refl
  length-entries (x ∷ xs) = ap suc (length-entries xs)

  IsZeroed-behind :
      (z : String × ℕ) (d : Dict ℕ) (es : List Entry)
      → IsNew z.0 es
      → IsZeroed d es
      → IsZeroed (z ∷ d) es
  IsZeroed-behind z d [] n h = tt
  IsZeroed-behind z d (e ∷ es) n h =
      (ground (arith, eq_iff z.0 e.0), IsZeroed-behind z d es n.1 h.1)

  entries-IsZeroed :
      (names : List String)
      → IsNodup names
      → IsZeroed (map zero_entry names) (map (entry_of counts) names)
  entries-IsZeroed [] d = tt
  entries-IsZeroed (x ∷ xs) d = (
    ground (arith, eq_iff x x),
    IsZeroed-behind (zero_entry x) (map zero_entry xs) (map (entry_of counts) xs)
        (IsNew-entries x xs d.0) (entries-IsZeroed xs d.1),
  )

zero_entries_sum : (names : List String) → sum_values (map zero_entry names) ≡ 0
zero_entries_sum [] = refl
zero_entries_sum (x ∷ xs) = omega (arith, zero_entries_sum xs)

zero_entries-IsCapped : (limit : ℕ) (names : List String) → IsCapped limit (map zero_entry names)
zero_entries-IsCapped limit [] = tt
zero_entries-IsCapped limit (x ∷ xs) = (omega arith, zero_entries-IsCapped limit xs)

pub zero_entries-keys : (names : List String) → keys (map zero_entry names) ≡ names
zero_entries-keys [] = refl
zero_entries-keys (x ∷ xs) = ap (◌∷◌ x) (zero_entries-keys xs)

-- The cap leaves room for the whole total.
power_cap-affordable : (n share : ℕ) → 0 < n → total_weight_units ≤ power_cap n share * n
power_cap-affordable n share h =
    let q = (total_weight_units + n - 1) / n in
    let whole : total_weight_units ≤ q * n =
      omega (
        arith,
        div-add-mod (total_weight_units + n - 1) n,
        mod-lt (total_weight_units + n - 1) h,
      ) in
    let below : q ≤ power_cap n share = omega arith in le_trans whole (mul-le-mul_right n below)

-- For a committee that is not empty and has no name twice the allocation ends; every member gets a
-- weight of at most the cap, nobody else gets one, and the weights add up to exactly the total.
pub allocate_weights-pays :
    (committee : List String) (share : ℕ) (tx_counts : Dict ℕ)
    → 0 < length committee
    → IsNodup committee
    → (weights : Dict ℕ) × (allocate_weights committee share tx_counts ≡ some weights)
      × (sum_values weights ≡ total_weight_units)
      × IsCapped (power_cap (length committee) share) weights
      × (keys weights ≡ committee)
unfolding allocate_weights
allocate_weights-pays committee share counts p n =
    let (r, found, paid, within, same) =
      allocate_loop_lem (suc (length committee)) (power_cap (length committee) share)
        (map (entry_of counts) committee) total_weight_units (map zero_entry committee)
        (omega (arith, length-entries counts committee))
        (omega (arith, length-entries counts committee)) (entries-positive counts committee)
        (entries-IsDistinct counts committee n) (entries-IsZeroed counts committee n)
        (zero_entries-IsCapped (power_cap (length committee) share) committee)
        (rw (length-entries counts committee) (power_cap-affordable (length committee) share p)) in
    (
      r,
      found,
      omega (arith, paid, zero_entries_sum committee),
      within,
      same ∙ zero_entries-keys committee,
    )
