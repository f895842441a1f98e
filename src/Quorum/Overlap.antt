-- ===== src/Quorum/Overlap.antt =====
-- Two quorums under one snapshot share more than a third of the weight.
use meshpay.Base.{
  ℕ, ◌+◌, ◌*◌, ◌<◌, ◌≤◌, ◌≡◌, ◌≢◌, refl, inl, inr, Bool, true, false, not, String, ◌==◌, eq_iff,
  List, [], ◌∷◌, contains, contains-false, All, All-filter, filter, IsNodup, Bool-cases, arith,
  Dict, lookup, sum_values, ◌++◌, All-filter_self,
}
use mathlib.Core.Option.{get_or}
use meshpay.Runtime.{Runtime}
use meshpay.Transaction.Transfer.{TransferOrder}
use meshpay.Transaction.Vote.{AuthorityVote}
use meshpay.Quorum.{WeightSnapshot, has_weighted_quorum}
use meshpay.Quorum.Signers.{
  weight_sum, HasVoted, signers, signers-IsNodup, signers-HasVoted, has_weighted_quorum-iff_signers,
}

-- The units that the names hold together in a dict of weights.
abbrev pub dict_sum : Dict ℕ → List String → ℕ
dict_sum d [] = 0
dict_sum d (a ∷ names) = get_or (lookup a d) 0 + dict_sum d names

dict_sum_skip :
    (k : String) (v : ℕ) (d : Dict ℕ) (names : List String)
    → All (λ a. a ≢ k) names
    → dict_sum ((k, v) ∷ d) names ≡ dict_sum d names
dict_sum_skip k v d [] h = refl
dict_sum_skip k v d (a ∷ names) h = ground (arith, eq_iff k a, dict_sum_skip k v d names h.1)

dict_sum_cons :
    (k : String) (v : ℕ) (d : Dict ℕ) (names : List String)
    → IsNodup names
    → dict_sum ((k, v) ∷ d) names ≤ v + dict_sum d names
dict_sum_cons k v d [] h = omega arith
dict_sum_cons k v d (a ∷ names) h = elim (Bool-cases (k == a)) [
  | inl same ↦
      let e = (eq_iff k a).0 same in rw same (omega (arith, dict_sum_skip k v d names (rw e h.0)))
  | inr other ↦ rw other (omega (arith, dict_sum_cons k v d names h.1))
]

dict_sum_nil : (names : List String) → dict_sum [] names ≡ 0
dict_sum_nil [] = refl
dict_sum_nil (a ∷ names) = omega (arith, dict_sum_nil names)

-- Different names hold no more than all entries together.
pub dict_sum-le :
    (d : Dict ℕ) (names : List String) → IsNodup names → dict_sum d names ≤ sum_values d
dict_sum-le [] names h = omega (arith, dict_sum_nil names)
dict_sum-le ((k, v) ∷ d) names h = omega (arith, dict_sum_cons k v d names h, dict_sum-le d names h)

weight_sum-dict :
    (s : WeightSnapshot) (names : List String) → weight_sum s names ≡ dict_sum s.weights names
weight_sum-dict s [] = refl
weight_sum-dict s (a ∷ names) = rw (weight_sum-dict s names)

weight_sum-append :
    (s : WeightSnapshot) (xs ys : List String)
    → weight_sum s (xs ++ ys) ≡ weight_sum s xs + weight_sum s ys
weight_sum-append s [] ys = omega arith
weight_sum-append s (a ∷ xs) ys = omega (arith, weight_sum-append s xs ys)

All-append {κ} :
    (P : String → Type κ) (xs ys : List String) → All P xs → All P ys → All P (xs ++ ys)
All-append P [] ys hx hy = hy
All-append P (a ∷ xs) ys hx hy = (hx.0, All-append P xs ys hx.1 hy)

IsNodup-append :
    (xs ys : List String)
    → IsNodup xs
    → IsNodup ys
    → All (λ a. contains a ys ≡ false) xs
    → IsNodup (xs ++ ys)
IsNodup-append [] ys hx hy h = hy
IsNodup-append (a ∷ xs) ys hx hy h =
    (All-append (λ b. b ≢ a) xs ys hx.0 (contains-false a ys h.0), IsNodup-append xs ys hx.1 hy h.1)

IsNodup-filter : (p : String → Bool) (xs : List String) → IsNodup xs → IsNodup (filter p xs)
IsNodup-filter p [] h = tt
IsNodup-filter p (a ∷ xs) h = elim (Bool-cases (p a)) [
  | inl keep ↦ rw keep (All-filter (λ b. b ≢ a) p xs h.0, IsNodup-filter p xs h.1)
  | inr drop ↦ rw drop (IsNodup-filter p xs h.1)
]

All-contains {κ} :
    (P : String → Type κ) (a : String) (ys : List String) → contains a ys ≡ true → All P ys → P a
All-contains P a [] c h = absurd (cc)
All-contains P a (y ∷ ys) c h = elim (Bool-cases (y == a)) [
  | inl same ↦ rw (← (eq_iff y a).0 same) h.0
  | inr other ↦ All-contains P a ys (ground arith) h.1
]

not-false : (b : Bool) → not b ≡ true → b ≡ false
not-false b h = ground arith

module _ (s : WeightSnapshot) where
  -- Names of the first list that are in the second, and those that are not.
  abbrev pub shared : List String → List String → List String
  shared xs ys = filter (λ a. contains a ys) xs

  abbrev apart : List String → List String → List String
  apart xs ys = filter (λ a. not (contains a ys)) xs

  weight_split :
      (xs ys : List String)
      → weight_sum s xs ≡ weight_sum s (shared xs ys) + weight_sum s (apart xs ys)
  weight_split [] ys = refl
  weight_split (a ∷ xs) ys = ground (arith, weight_split xs ys)

  -- Two lists of different names cannot hold more than the dict does, but for what they share.
  shared-weight :
      (xs ys : List String)
      → IsNodup xs
      → IsNodup ys
      → weight_sum s xs + weight_sum s ys ≤ weight_sum s (shared xs ys) + sum_values s.weights
  shared-weight xs ys hx hy =
      let both = apart xs ys ++ ys in
      let distinct =
        IsNodup-append (apart xs ys) ys (IsNodup-filter (λ a. not (contains a ys)) xs hx) hy (
          All-filter_self (λ a. contains a ys ≡ false) (λ a. not (contains a ys))
            (λ a. not-false (contains a ys)) xs) in
      omega (
        arith,
        weight_split xs ys,
        weight_sum-append s (apart xs ys) ys,
        weight_sum-dict s both,
        dict_sum-le s.weights both distinct,
      )

-- Two orders that both reach a quorum under one snapshot, whose weights add up to its total, have
-- common voters: distinct authorities that voted for both orders and that together hold more than a
-- third of the total.
pub quorum_overlap :
    (rt : Runtime) (s : WeightSnapshot) (order order' : TransferOrder)
    (votes votes' : List AuthorityVote)
    → sum_values s.weights ≡ s.total_weight_units
    → has_weighted_quorum rt order votes s ≡ true
    → has_weighted_quorum rt order' votes' s ≡ true
    → (common : List String) × IsNodup common
      × All (HasVoted rt order s votes) common
      × All (HasVoted rt order' s votes') common
      × (s.total_weight_units < 3 * weight_sum s common)
quorum_overlap rt s order order' votes votes' total q q' =
    let xs = signers rt order s votes in
    let ys = signers rt order' s votes' in
    let hx = signers-IsNodup rt order s votes in
    let hy = signers-IsNodup rt order' s votes' in
    let enough = (has_weighted_quorum-iff_signers rt order s votes).0 q in
    let enough' = (has_weighted_quorum-iff_signers rt order' s votes').0 q' in
    (
      shared s xs ys,
      IsNodup-filter (λ a. contains a ys) xs hx,
      All-filter (HasVoted rt order s votes) (λ a. contains a ys) xs
          (signers-HasVoted rt order s votes),
      All-filter_self (HasVoted rt order' s votes') (λ a. contains a ys)
          (λ a c.
            All-contains (HasVoted rt order' s votes') a ys c (signers-HasVoted rt order' s votes'))
          xs,
      omega (arith, shared-weight s xs ys hx hy),
    )
