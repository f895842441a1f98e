-- ===== src/Weights.antt =====
-- The voting weights of `WeightRegistry._allocate_weights`
-- (meshpay/offline/weighted_quorum.py), with exact quotas in place of floats.
mod Entries
mod Remainder
pub mod Settle
mod Budget
pub mod Allocate
use Prim.Native.String.{compare}
use Prim.Native.Nat.{Ordering}
use meshpay.Base.{
  ℕ, zero, suc, ◌+◌, ◌-◌, ◌*◌, ◌/◌, ◌%◌, max, String, Bool, true, false, not, ◌&&◌, ◌||◌, Option,
  none, some, List, [], ◌∷◌, map, ltb, nat_eq, if◌then◌else◌, Dict, lookup, insert, length, take,
  filter,
}
use mathlib.Core.Option.{get_or}

-- `TOTAL_WEIGHT_UNITS`
abbrev pub total_weight_units : ℕ
total_weight_units = 1_000_000

-- A committee member with its raw weight.
abbrev pub Entry : Type 0
Entry = String × ℕ

abbrev pub raw_sum : List Entry → ℕ
raw_sum [] = 0
raw_sum ((_, w) ∷ es) = w + raw_sum es

-- `raw[name] * budget / raw_total > cap`, multiplied out.
abbrev pub is_over : ℕ → ℕ → ℕ → Entry → Bool
is_over cap budget raw_total e = ltb (cap * raw_total) (e.1 * budget)

-- The whole units of a quota, and its fraction in parts of `raw_total`.
abbrev pub floor_of : ℕ → ℕ → Entry → ℕ
floor_of budget raw_total e = e.1 * budget / raw_total

abbrev pub fraction_of : ℕ → ℕ → Entry → Entry
fraction_of budget raw_total e = (e.0, e.1 * budget % raw_total)

-- `allocated[name] = f(name)` for each name.
abbrev pub set_all : (Entry → ℕ) → List Entry → Dict ℕ → Dict ℕ
set_all f [] d = d
set_all f (e ∷ es) d = set_all f es (insert e.0 (f e) d)

-- `(fraction, name)` of `a` comes before that of `b` in the reversed order.
abbrev pub comes_first : Entry → Entry → Bool
comes_first a b =
    ltb b.1 a.1 || (nat_eq a.1 b.1 && elim (compare b.0 a.0) [ Ordering.lt ↦ true | _ ↦ false ])

abbrev pub insert_sorted : Entry → List Entry → List Entry
insert_sorted e [] = e ∷ []
insert_sorted e (x ∷ xs) = if comes_first x e then x ∷ insert_sorted e xs else e ∷ x ∷ xs

-- `sorted(remaining, key=lambda n: (quotas[n] % 1, n), reverse=True)`
abbrev pub sort_desc : List Entry → List Entry
sort_desc [] = []
sort_desc (e ∷ es) = insert_sorted e (sort_desc es)

-- `allocated[name] += 1` for each name.
abbrev pub add_one_each : List Entry → Dict ℕ → Dict ℕ
add_one_each [] d = d
add_one_each (e ∷ es) d = add_one_each es (insert e.0 (get_or (lookup e.0 d) 0 + 1) d)

abbrev pub entry_sum : (Entry → ℕ) → List Entry → ℕ
entry_sum f [] = 0
entry_sum f (e ∷ es) = f e + entry_sum f es

abbrev pub floor_sum : ℕ → ℕ → List Entry → ℕ
floor_sum budget raw_total = entry_sum (floor_of budget raw_total)

-- The branch in which nobody exceeds the cap: the floors, then the largest remainders.
pub settle : List Entry → ℕ → Dict ℕ → Dict ℕ
settle remaining budget allocated =
    let raw_total = raw_sum remaining in
    let remainder = budget - floor_sum budget raw_total remaining in
    add_one_each (take remainder (sort_desc (map (fraction_of budget raw_total) remaining)))
      (set_all (floor_of budget raw_total) remaining allocated)

-- The `while remaining:` loop. Capped members leave `remaining`, and their units the budget.
pub allocate_loop : ℕ → ℕ → List Entry → ℕ → Dict ℕ → Option (Dict ℕ)
allocate_loop zero cap remaining budget allocated = none
allocate_loop (suc fuel) cap [] budget allocated = some allocated
allocate_loop (suc fuel) cap (e ∷ es) budget allocated =
    let remaining = e ∷ es in
    let over = is_over cap budget (raw_sum remaining) in
    let capped = filter over remaining in
    let rest =
      allocate_loop fuel cap (filter (λ x. not (over x)) remaining) (budget - cap * length capped)
        (set_all (λ _. cap) capped allocated) in
    if nat_eq (length capped) 0 then some (settle remaining budget allocated) else rest

-- `max(ceil(TOTAL / n), floor(max_power_share * TOTAL))`, the share in units of the total.
abbrev pub power_cap : ℕ → ℕ → ℕ
power_cap members share = max ((total_weight_units + members - 1) / members) share

abbrev pub entry_of : Dict ℕ → String → Entry
entry_of tx_counts name = (name, 1 + get_or (lookup name tx_counts) 0)

abbrev pub zero_entry : String → String × ℕ
zero_entry name = (name, 0)

pub allocate_weights : List String → ℕ → Dict ℕ → Option (Dict ℕ)
allocate_weights committee share tx_counts =
    allocate_loop (suc (length committee)) (power_cap (length committee) share)
      (map (entry_of tx_counts) committee) total_weight_units (map zero_entry committee)
