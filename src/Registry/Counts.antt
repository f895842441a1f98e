-- ===== src/Registry/Counts.antt =====
-- The counters of the registry: no counter is missing, and none gets lost.
use meshpay.Base.{
  ℕ, ◌+◌, ◌≡◌, refl, ◌∙◌, ap, true, some, String, ◌==◌, eq_iff, List, [], ◌∷◌, arith, Dict, lookup,
  insert, keys, keys-insert, sum_values, sum_values-insert, contains, All, length, Bool-cases, inl,
  inr,
}
use meshpay.Value.{ok}
use meshpay.Registry.{restrict, add_to, reward_each, pay_rewards, clear_rewards}

-- Every name has an entry.
abbrev pub HasKeys : Dict ℕ → List String → Type 0
HasKeys d = All (λ a. contains a (keys d) ≡ true)

pub lookup_of_key :
    (a : String) (d : Dict ℕ) → contains a (keys d) ≡ true → (v : ℕ) × (lookup a d ≡ some v)
lookup_of_key a [] h = absurd (cc)
lookup_of_key a ((k, v) ∷ d) h = elim (Bool-cases (k == a)) [
  | inl same ↦ (v, rw same)
  | inr other ↦ let (w, found) = lookup_of_key a d (ground arith) in (w, rw other found)
]

pub restrict_total :
    (d : Dict ℕ) (names : List String) → HasKeys d names → (r : Dict ℕ) × (restrict d names ≡ ok r)
restrict_total d [] h = ([], refl)
restrict_total d (a ∷ names) h =
    let (v, found) = lookup_of_key a d h.0 in
    let (r, rest) = restrict_total d names h.1 in ((a, v) ∷ r, rw (found, rest))

add_to_lem :
    (a : String) (n : ℕ) (d : Dict ℕ)
    → contains a (keys d) ≡ true
    → (r : Dict ℕ) × (add_to a n d ≡ ok r) × (keys r ≡ keys d) × (sum_values r ≡ sum_values d + n)
add_to_lem a n d h =
    let (v, found) = lookup_of_key a d h in
    (
      insert a (v + n) d,
      rw found,
      keys-insert a (v + n) d (λ missing. cc),
      omega (arith, sum_values-insert a (v + n) v d found),
    )

pub reward_each_lem :
    (names : List String) (d : Dict ℕ)
    → HasKeys d names
    → (r : Dict ℕ) × (reward_each names d ≡ ok r)
      × (keys r ≡ keys d)
      × (sum_values r ≡ sum_values d + length names)
reward_each_lem [] d h = (d, refl, refl, omega arith)
reward_each_lem (a ∷ names) d h =
    let (d', added, same, more) = add_to_lem a 1 d h.0 in
    let (r, rest, same', more') = reward_each_lem names d' (rw same h.1) in
    (r, rw added rest, same' ∙ same, omega (arith, more, more'))

pub pay_rewards_lem :
    (rewards counts : Dict ℕ)
    → HasKeys counts (keys rewards)
    → (r : Dict ℕ) × (pay_rewards rewards counts ≡ ok r)
      × (keys r ≡ keys counts)
      × (sum_values r ≡ sum_values counts + sum_values rewards)
pay_rewards_lem [] counts h = (counts, refl, refl, omega arith)
pay_rewards_lem ((a, n) ∷ rewards) counts h =
    let (d', added, same, more) = add_to_lem a n counts h.0 in
    let (r, rest, same', more') = pay_rewards_lem rewards d' (rw same h.1) in
    (r, rw added rest, same' ∙ same, omega (arith, more, more'))

pub keys-clear_rewards : (d : Dict ℕ) → keys (clear_rewards d) ≡ keys d
keys-clear_rewards [] = refl
keys-clear_rewards ((a, n) ∷ d) = ap (◌∷◌ a) (keys-clear_rewards d)

pub sum_values-clear_rewards : (d : Dict ℕ) → sum_values (clear_rewards d) ≡ 0
sum_values-clear_rewards [] = refl
sum_values-clear_rewards ((a, n) ∷ d) = omega (arith, sum_values-clear_rewards d)

contains_later :
    (y : String) (xs ys : List String)
    → All (λ a. contains a ys ≡ true) xs
    → All (λ a. contains a (y ∷ ys) ≡ true) xs
contains_later y [] ys h = tt
contains_later y (x ∷ xs) ys h = (ground arith, contains_later y xs ys h.1)

pub contains_self : (xs : List String) → All (λ a. contains a xs ≡ true) xs
contains_self [] = tt
contains_self (x ∷ xs) = (ground (arith, eq_iff x x), contains_later x xs xs (contains_self xs))
