-- ===== src/Weights/Budget.antt =====
-- The capping loop ends in the settling branch, and what it pays out is the whole budget.
use meshpay.Base.{
  ℕ, zero, suc, ◌+◌, ◌-◌, ◌*◌, ◌≤◌, ◌<◌, ◌≡◌, refl, ap, ◌∙◌, ◌≢◌, sym, String, Bool, true, false,
  not, some, List, [], ◌∷◌, arith, All, All-filter, All-filter_self, length, length-filter-not,
  filter, Bool-cases, inl, inr, if◌then◌else◌, Dict, lookup, sum_values, keys, nat_eq,
}
use native.Mathlib.Decide.{dec_lt}
use native.Mathlib.Nat.{mul-le-mul_left, mul-le-mul_right, le_of_mul-le-mul_left}
use meshpay.Weights.{Entry, raw_sum, entry_sum, is_over, set_all, settle, allocate_loop}
use meshpay.Weights.Entries.{IsNew, IsDistinct, IsZeroed, IsZeroed-set_all, sum_values-set_all}
use meshpay.Weights.Settle.{IsCapped, settle_lem, IsCapped-set_all, keys-set_all}

raw_sum-filter-not :
    (p : Entry → Bool) (es : List Entry)
    → raw_sum (filter p es) + raw_sum (filter (λ x. not (p x)) es) ≡ raw_sum es
raw_sum-filter-not p [] = omega arith
raw_sum-filter-not p (e ∷ es) = ground (arith, raw_sum-filter-not p es)

IsDistinct-filter : (p : Entry → Bool) (es : List Entry) → IsDistinct es → IsDistinct (filter p es)
IsDistinct-filter p [] d = tt
IsDistinct-filter p (e ∷ es) d = elim (Bool-cases (p e)) [
  | inl keep ↦ rw keep (All-filter (λ x. x.0 ≢ e.0) p es d.0, IsDistinct-filter p es d.1)
  | inr drop ↦ rw drop (IsDistinct-filter p es d.1)
]

All-map_imp {κ μ} :
    {P : Entry → Type κ} {Q : Entry → Type μ} (imp : (e : Entry) → P e → Q e) (es : List Entry)
    → All P es
    → All Q es
All-map_imp imp [] h = tt
All-map_imp imp (e ∷ es) h = (imp e h.0, All-map_imp imp es h.1)

IsNew-cons :
    (k : String) (F G : List Entry)
    → All (λ x. x.0 ≢ k) G
    → All (λ x. IsNew x.0 F) G
    → (w : ℕ) → All (λ x. IsNew x.0 ((k, w) ∷ F)) G
IsNew-cons k F [] h n w = tt
IsNew-cons k F (g ∷ G) h n w = ((λ same. h.0 (sym same), n.0), IsNew-cons k F G h.1 n.1 w)

-- A name is on one side of the split only.
filters-disjoint :
    (p : Entry → Bool) (es : List Entry)
    → IsDistinct es
    → All (λ k. IsNew k.0 (filter p es)) (filter (λ x. not (p x)) es)
filters-disjoint p [] d = tt
filters-disjoint p (e ∷ es) d = elim (Bool-cases (p e)) [
  | inl keep ↦ rw keep (
      IsNew-cons e.0 (filter p es) (filter (λ x. not (p x)) es)
        (All-filter (λ x. x.0 ≢ e.0) (λ x. not (p x)) es d.0) (filters-disjoint p es d.1) e.1)
  | inr drop ↦ rw drop (All-filter (λ x. x.0 ≢ e.0) p es d.0, filters-disjoint p es d.1)
]

none_pass :
    (p : Entry → Bool) (es : List Entry) → length (filter p es) ≡ 0 → All (λ e. p e ≡ false) es
none_pass p [] h = tt
none_pass p (e ∷ es) h = elim (Bool-cases (p e)) [
  | inl keep ↦ absurd (ground arith)
  | inr drop ↦ (drop, none_pass p es (ground arith))
]

under_cap :
    (cap budget total : ℕ) (e : Entry)
    → is_over cap budget total e ≡ false
    → e.1 * budget ≤ cap * total
under_cap cap budget total e h = ground arith

over_cap :
    (cap budget total : ℕ) (e : Entry)
    → is_over cap budget total e ≡ true
    → cap * total < e.1 * budget
over_cap cap budget total e h = ground arith

-- Those above the cap hold more than a cap each of `total` budgets.
over_sum :
    (limit budget : ℕ) (es : List Entry)
    → All (λ e. limit < e.1 * budget) es
    → length es + limit * length es ≤ raw_sum es * budget
over_sum limit budget [] h = omega arith
over_sum limit budget (e ∷ es) h = omega (arith, over_sum limit budget es h.1, h.0)

capped_fits :
    (cap total budget n raw rest : ℕ)
    → 0 < total
    → raw + rest ≡ total
    → n + cap * total * n ≤ raw * budget
    → cap * n ≤ budget
capped_fits cap total budget n raw rest t s h =
    let wider : raw * budget ≤ total * budget = mul-le-mul_right budget (omega arith) in
    let scaled : total * (cap * n) ≤ total * budget = omega arith in le_of_mul-le-mul_left scaled t

not_all_capped :
    (cap total budget n : ℕ) → 0 < n → budget ≤ cap * n → n + cap * total * n ≤ total * budget → ⊥
not_all_capped cap total budget n p b h =
    let scaled : total * budget ≤ total * (cap * n) = mul-le-mul_left total b in omega arith

raw_sum_of_empty : (es : List Entry) → length es ≡ 0 → raw_sum es ≡ 0
raw_sum_of_empty [] h = refl
raw_sum_of_empty (e ∷ es) h = absurd (omega arith)

entry_sum_const : (limit : ℕ) (es : List Entry) → entry_sum (λ _. limit) es ≡ limit * length es
entry_sum_const limit [] = omega arith
entry_sum_const limit (e ∷ es) = omega (arith, entry_sum_const limit es)

All-const_le : (limit : ℕ) (es : List Entry) → All (λ _. limit ≤ limit) es
All-const_le limit [] = tt
All-const_le limit (e ∷ es) = (omega arith, All-const_le limit es)

if_zero {ℓ} : {A : Type ℓ} (n : ℕ) (x y : A) → n ≡ 0 → (if nat_eq n 0 then x else y) ≡ x
if_zero n x y h = rw h

if_pos {ℓ} : {A : Type ℓ} (n : ℕ) (x y : A) → 0 < n → (if nat_eq n 0 then x else y) ≡ y
if_pos n x y h = ground arith

module _ (limit : ℕ) (e : Entry) (es : List Entry) (budget : ℕ) (d : Dict ℕ)
    (positive : All (λ x. 0 < x.1) (e ∷ es)) (distinct : IsDistinct (e ∷ es))
    (zeroed : IsZeroed d (e ∷ es)) (capped : IsCapped limit d)
    (affordable : budget ≤ limit * length (e ∷ es)) where
  over : Entry → Bool
  over = is_over limit budget (raw_sum (e ∷ es))

  full : List Entry
  full = filter over (e ∷ es)

  rest : List Entry
  rest = filter (λ x. not (over x)) (e ∷ es)

  total-positive : 0 < raw_sum (e ∷ es)
  total-positive = omega (arith, positive.0)

  full_sum : length full + limit * raw_sum (e ∷ es) * length full ≤ raw_sum full * budget
  unfolding full over
  full_sum = over_sum (limit * raw_sum (e ∷ es)) budget full (
      All-filter_self (λ x. limit * raw_sum (e ∷ es) < x.1 * budget) over
        (over_cap limit budget (raw_sum (e ∷ es))) (e ∷ es))

  -- The capped members cost no more than the budget.
  full-le-budget : limit * length full ≤ budget
  unfolding full rest
  full-le-budget =
      capped_fits limit (raw_sum (e ∷ es)) budget (length full) (raw_sum full) (raw_sum rest)
        total-positive (raw_sum-filter-not over (e ∷ es)) full_sum

  rest-length : length full + length rest ≡ length (e ∷ es)
  unfolding full rest
  rest-length = length-filter-not over (e ∷ es)

  raw_sum-split : raw_sum full + raw_sum rest ≡ raw_sum (e ∷ es)
  unfolding full rest
  raw_sum-split = raw_sum-filter-not over (e ∷ es)

  -- Somebody is left under the cap.
  rest-nonempty : 0 < length full → 0 < length rest
  rest-nonempty some_full = elim (dec_lt 0 (length rest)) [
    | yes p ↦ p
    | no p ↦
        let gone = raw_sum_of_empty rest (omega arith) in
        let same : raw_sum full ≡ raw_sum (e ∷ es) = omega (arith, gone, raw_sum-split) in
        let count : length full ≡ length (e ∷ es) = omega (arith, rest-length) in
        absurd (
          not_all_capped limit (raw_sum (e ∷ es)) budget (length full) some_full
            (rw count affordable) (rw same at full_sum))
  ]

  settled : length full ≡ 0 → All (λ x. x.1 * budget ≤ limit * raw_sum (e ∷ es)) (e ∷ es)
  unfolding full over
  settled none_full =
      All-map_imp (under_cap limit budget (raw_sum (e ∷ es))) (e ∷ es)
        (none_pass over (e ∷ es) none_full)

  rest-affordable : budget - limit * length full ≤ limit * length rest
  rest-affordable = omega (arith, ap (λ t. limit * t) rest-length)

  closed : Dict ℕ
  unfolding full
  closed = set_all (λ _. limit) full d

  full-IsDistinct : IsDistinct full
  unfolding full
  full-IsDistinct = IsDistinct-filter over (e ∷ es) distinct

  full-IsZeroed : IsZeroed d full
  unfolding full
  full-IsZeroed = All-filter (λ x. lookup x.0 d ≡ some 0) over (e ∷ es) zeroed

  closed_sum : sum_values closed ≡ sum_values d + limit * length full
  unfolding closed
  closed_sum =
      sum_values-set_all (λ _. limit) full d full-IsDistinct full-IsZeroed
      ∙ ap (λ t. sum_values d + t) (entry_sum_const limit full)

  closed-IsCapped : IsCapped limit closed
  unfolding closed
  closed-IsCapped = IsCapped-set_all (λ _. limit) limit full d (All-const_le limit full) capped

  closed-keys : keys closed ≡ keys d
  unfolding closed
  closed-keys = keys-set_all (λ _. limit) full d full-IsDistinct full-IsZeroed

  rest-IsZeroed : IsZeroed closed rest
  unfolding closed full rest
  rest-IsZeroed =
      IsZeroed-set_all (λ _. limit) full rest d (filters-disjoint over (e ∷ es) distinct)
        (All-filter (λ x. lookup x.0 d ≡ some 0) (λ x. not (over x)) (e ∷ es) zeroed)

  rest-IsDistinct : IsDistinct rest
  unfolding rest
  rest-IsDistinct = IsDistinct-filter (λ x. not (over x)) (e ∷ es) distinct

  rest-positive : All (λ x. 0 < x.1) rest
  unfolding rest
  rest-positive = All-filter (λ x. 0 < x.1) (λ x. not (over x)) (e ∷ es) positive

  step_settle :
      (fuel : ℕ)
      → length full ≡ 0
      → allocate_loop (suc fuel) limit (e ∷ es) budget d ≡ some (settle (e ∷ es) budget d)
  unfolding allocate_loop full over
  step_settle fuel h = if_zero (length full) _ _ h

  step_capped :
      (fuel : ℕ)
      → 0 < length full
      → allocate_loop (suc fuel) limit (e ∷ es) budget d
        ≡ allocate_loop fuel limit rest (budget - limit * length full) closed
  unfolding allocate_loop full rest over closed
  step_capped fuel h = if_pos (length full) _ _ h

-- From a state within the cap, enough fuel gives a result that pays out the budget.
pub allocate_loop_lem :
    (fuel limit : ℕ) (es : List Entry) (budget : ℕ) (d : Dict ℕ)
    → length es < fuel
    → 0 < length es
    → All (λ x. 0 < x.1) es
    → IsDistinct es
    → IsZeroed d es
    → IsCapped limit d
    → budget ≤ limit * length es
    → (r : Dict ℕ) × (allocate_loop fuel limit es budget d ≡ some r)
      × (sum_values r ≡ sum_values d + budget)
      × IsCapped limit r
      × (keys r ≡ keys d)
allocate_loop_lem zero limit es budget d f l p n z c b = absurd (omega arith)
allocate_loop_lem (suc fuel) limit [] budget d f l p n z c b = absurd (omega arith)
allocate_loop_lem (suc fuel) limit (e ∷ es) budget d f l p n z c b =
    elim (dec_lt 0 (length (full limit e es budget d p n z c b))) [
      | no none_full ↦
          let empty : length (full limit e es budget d p n z c b) ≡ 0 = omega arith in
          let (paid, within, same) =
            settle_lem limit (e ∷ es) budget d (total-positive limit e es budget d p n z c b) n z c
              (settled limit e es budget d p n z c b empty) in
          (
            settle (e ∷ es) budget d,
            step_settle limit e es budget d p n z c b fuel empty,
            paid,
            within,
            same,
          )
      | yes some_full ↦
          let (r, found, paid, within, same) =
            allocate_loop_lem fuel limit (rest limit e es budget d p n z c b)
              (budget - limit * length (full limit e es budget d p n z c b))
              (closed limit e es budget d p n z c b)
              (omega (arith, rest-length limit e es budget d p n z c b))
              (rest-nonempty limit e es budget d p n z c b some_full)
              (rest-positive limit e es budget d p n z c b)
              (rest-IsDistinct limit e es budget d p n z c b)
              (rest-IsZeroed limit e es budget d p n z c b)
              (closed-IsCapped limit e es budget d p n z c b)
              (rest-affordable limit e es budget d p n z c b) in
          (
            r,
            step_capped limit e es budget d p n z c b fuel some_full ∙ found,
            omega (
              arith,
              paid,
              closed_sum limit e es budget d p n z c b,
              full-le-budget limit e es budget d p n z c b,
            ),
            within,
            same ∙ closed-keys limit e es budget d p n z c b,
          )
    ]
