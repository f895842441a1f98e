-- ===== src/Weights/Settle.antt =====
-- The settling branch: it hands out exactly the budget, and lifts nobody above the cap.
use meshpay.Base.{
  ℕ, zero, suc, ◌+◌, ◌-◌, ◌*◌, ◌/◌, ◌%◌, ◌≤◌, ◌<◌, ◌≡◌, refl, ap, ◌∙◌, ◌≢◌, String, some, List, [],
  ◌∷◌, map, arith, take, All, length, Dict, lookup, insert, lookup-insert, sum_values,
  sum_values-insert, eq_iff, keys, keys-insert,
}
use native.Mathlib.Nat.{div-add-mod}
use meshpay.Weights.{
  Entry, raw_sum, floor_sum, floor_of, fraction_of, sort_desc, add_one_each, set_all, settle,
}
use meshpay.Weights.Entries.{
  IsNew, IsDistinct, IsZeroed, IsZeroed-insert, lookup-set_all_ne, sum_values-set_all,
}
use meshpay.Weights.Remainder.{
  All-sort_desc, sort_desc-IsDesc, sort_desc-IsDistinct, raw_sum-sort_desc, take-positive,
  floor_sum-fractions, fractions-lt,
}

-- No value exceeds the cap.
abbrev pub IsCapped : ℕ → Dict ℕ → Type 0
IsCapped cap = All (λ e. e.1 ≤ cap)

-- Each name has an entry, below the cap.
abbrev HasRoom : ℕ → Dict ℕ → List Entry → Type 0
HasRoom cap d = All (λ e. (v : ℕ) × (lookup e.0 d ≡ some v) × (v < cap))

pub IsCapped-insert :
    (cap : ℕ) (k : String) (v : ℕ) (d : Dict ℕ)
    → v ≤ cap
    → IsCapped cap d
    → IsCapped cap (insert k v d)
IsCapped-insert cap k v [] h c = (h, tt)
IsCapped-insert cap k v (e ∷ d) h c = ground (arith, IsCapped-insert cap k v d h c.1)

HasRoom-insert :
    (cap : ℕ) (k : String) (v : ℕ) (d : Dict ℕ) (es : List Entry)
    → IsNew k es
    → HasRoom cap d es
    → HasRoom cap (insert k v d) es
HasRoom-insert cap k v d [] n h = tt
HasRoom-insert cap k v d (e ∷ es) n h = (
  (h.0.0, ground (arith, lookup-insert k e.0 v d, eq_iff k e.0), h.0.2),
  HasRoom-insert cap k v d es n.1 h.1,
)

-- Adding one unit to each of some distinct names that have room.
pub add_one_each_lem :
    (cap : ℕ) (es : List Entry) (d : Dict ℕ)
    → IsDistinct es
    → HasRoom cap d es
    → IsCapped cap d
    → (sum_values (add_one_each es d) ≡ sum_values d + length es)
      × IsCapped cap (add_one_each es d)
      × (keys (add_one_each es d) ≡ keys d)
add_one_each_lem cap [] d n r c = (omega arith, c, refl)
add_one_each_lem cap (e ∷ es) d n r c =
    let (v, found, room) = r.0 in
    let (total, capped, same) =
      add_one_each_lem cap es (insert e.0 (v + 1) d) n.1
        (HasRoom-insert cap e.0 (v + 1) d es n.0 r.1)
        (IsCapped-insert cap e.0 (v + 1) d (omega arith) c) in
    rw found (
      omega (arith, total, sum_values-insert e.0 (v + 1) v d found),
      capped,
      same ∙ keys-insert e.0 (v + 1) d (λ missing. cc),
    )

pub IsCapped-set_all :
    (f : Entry → ℕ) (cap : ℕ) (es : List Entry) (d : Dict ℕ)
    → All (λ e. f e ≤ cap) es
    → IsCapped cap d
    → IsCapped cap (set_all f es d)
IsCapped-set_all f cap [] d b c = c
IsCapped-set_all f cap (e ∷ es) d b c =
    IsCapped-set_all f cap es (insert e.0 (f e) d) b.1 (IsCapped-insert cap e.0 (f e) d b.0 c)

pub keys-set_all :
    (f : Entry → ℕ) (es : List Entry) (d : Dict ℕ)
    → IsDistinct es
    → IsZeroed d es
    → keys (set_all f es d) ≡ keys d
keys-set_all f [] d n z = refl
keys-set_all f (e ∷ es) d n z =
    keys-set_all f es (insert e.0 (f e) d) n.1 (IsZeroed-insert e.0 (f e) d es n.0 z.1)
    ∙ keys-insert e.0 (f e) d (λ missing. cc)

lookup-set_all :
    (f : Entry → ℕ) (es : List Entry) (d : Dict ℕ)
    → IsDistinct es
    → All (λ e. lookup e.0 (set_all f es d) ≡ some (f e)) es
lookup-set_all f [] d n = tt
lookup-set_all f (e ∷ es) d n = (
  lookup-set_all_ne f e.0 es (insert e.0 (f e) d) n.0
      ∙ ground (arith, lookup-insert e.0 e.0 (f e) d, eq_iff e.0 e.0),
  lookup-set_all f es (insert e.0 (f e) d) n.1,
)

-- A name's value, which is below the cap if its fraction is positive.
abbrev IsRoomy : ℕ → Dict ℕ → List Entry → Type 0
IsRoomy cap d = All (λ e. (v : ℕ) × (lookup e.0 d ≡ some v) × (0 < e.1 → v < cap))

HasRoom-take :
    (cap : ℕ) (d : Dict ℕ) (m : ℕ) (es : List Entry)
    → IsRoomy cap d es
    → All (λ e. 0 < e.1) (take m es)
    → HasRoom cap d (take m es)
HasRoom-take cap d zero es r p = tt
HasRoom-take cap d (suc m) [] r p = tt
HasRoom-take cap d (suc m) (e ∷ es) r p =
    ((r.0.0, r.0.1, r.0.2 p.0), HasRoom-take cap d m es r.1 p.1)

All-take {κ} : (P : Entry → Type κ) (m : ℕ) (es : List Entry) → All P es → All P (take m es)
All-take P zero es h = tt
All-take P (suc m) [] h = tt
All-take P (suc m) (e ∷ es) h = (h.0, All-take P m es h.1)

IsDistinct-take : (m : ℕ) (es : List Entry) → IsDistinct es → IsDistinct (take m es)
IsDistinct-take zero es d = tt
IsDistinct-take (suc m) [] d = tt
IsDistinct-take (suc m) (e ∷ es) d = (All-take (λ x. x.0 ≢ e.0) m es d.0, IsDistinct-take m es d.1)

IsNew-fractions :
    (budget total : ℕ) (k : String) (es : List Entry)
    → IsNew k es
    → IsNew k (map (fraction_of budget total) es)
IsNew-fractions budget total k [] n = tt
IsNew-fractions budget total k (e ∷ es) n = (n.0, IsNew-fractions budget total k es n.1)

IsDistinct-fractions :
    (budget total : ℕ) (es : List Entry)
    → IsDistinct es
    → IsDistinct (map (fraction_of budget total) es)
IsDistinct-fractions budget total [] d = tt
IsDistinct-fractions budget total (e ∷ es) d =
    (IsNew-fractions budget total e.0 es d.0, IsDistinct-fractions budget total es d.1)

div-lt_of_mod : (w total cap : ℕ) → 0 < total → w ≤ cap * total → 0 < w % total → w / total < cap
div-lt_of_mod w total cap t h p = grind (arith, div-add-mod w total)

div-le_of_le : (w total cap : ℕ) → 0 < total → w ≤ cap * total → w / total ≤ cap
div-le_of_le w total cap t h = grind (arith, div-add-mod w total)

IsRoomy-fractions :
    (budget total cap : ℕ) (es : List Entry) (d : Dict ℕ)
    → 0 < total
    → All (λ e. e.1 * budget ≤ cap * total) es
    → All (λ e. lookup e.0 d ≡ some (floor_of budget total e)) es
    → IsRoomy cap d (map (fraction_of budget total) es)
IsRoomy-fractions budget total cap [] d t h f = tt
IsRoomy-fractions budget total cap (e ∷ es) d t h f = (
  (floor_of budget total e, f.0, div-lt_of_mod (e.1 * budget) total cap t h.0),
  IsRoomy-fractions budget total cap es d t h.1 f.1,
)

floors-le :
    (budget total cap : ℕ) (es : List Entry)
    → 0 < total
    → All (λ e. e.1 * budget ≤ cap * total) es
    → All (λ e. floor_of budget total e ≤ cap) es
floors-le budget total cap [] t h = tt
floors-le budget total cap (e ∷ es) t h =
    (div-le_of_le (e.1 * budget) total cap t h.0, floors-le budget total cap es t h.1)

-- What the floors leave of the budget, in fractions of a unit.
left_over :
    (total floors fractions budget : ℕ)
    → 0 < total
    → total * floors + fractions ≡ total * budget
    → (floors ≤ budget) × ((budget - floors) * total ≡ fractions)
left_over total floors fractions budget t e =
    let enough : floors ≤ budget = grind arith in
    let k = budget - floors in
    let split : budget ≡ floors + k = omega arith in
    (enough, omega (arith, ap (λ b. total * b) split))

-- Settling pays out the whole budget, and nobody ends above the cap.
pub settle_lem :
    (cap : ℕ) (es : List Entry) (budget : ℕ) (d : Dict ℕ)
    → 0 < raw_sum es
    → IsDistinct es
    → IsZeroed d es
    → IsCapped cap d
    → All (λ e. e.1 * budget ≤ cap * raw_sum es) es
    → (sum_values (settle es budget d) ≡ sum_values d + budget)
      × IsCapped cap (settle es budget d)
      × (keys (settle es budget d) ≡ keys d)
unfolding settle
settle_lem cap es budget d t n z c under =
    let total = raw_sum es in
    let fractions = map (fraction_of budget total) es in
    let sorted = sort_desc fractions in
    let floors = set_all (floor_of budget total) es d in
    let (enough, exact) =
      left_over total (floor_sum budget total es) (raw_sum fractions) budget t
        (floor_sum-fractions budget total es) in
    let m = budget - floor_sum budget total es in
    let (positive, taken) =
      take-positive total m sorted t (sort_desc-IsDesc fractions)
        (All-sort_desc (λ y. y.1 < total) fractions (fractions-lt budget total es t))
        (omega (arith, raw_sum-sort_desc fractions)) in
    let (paid, capped, same) =
      add_one_each_lem cap (take m sorted) floors
        (IsDistinct-take m sorted
          (sort_desc-IsDistinct fractions (IsDistinct-fractions budget total es n)))
        (HasRoom-take cap floors m sorted
          (All-sort_desc _ fractions (
            IsRoomy-fractions budget total cap es floors t under
              (lookup-set_all (floor_of budget total) es d n)))
          positive)
        (IsCapped-set_all (floor_of budget total) cap es d (floors-le budget total cap es t under)
          c) in
    (
      omega (arith, paid, taken, sum_values-set_all (floor_of budget total) es d n z),
      capped,
      same ∙ keys-set_all (floor_of budget total) es d n z,
    )
