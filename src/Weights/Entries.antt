-- ===== src/Weights/Entries.antt =====
-- The dict updates of the allocation: what a block of assignments does to the sum and the entries.
use meshpay.Base.{
  ℕ, ◌+◌, ◌≡◌, refl, ◌∙◌, ◌≢◌, String, some, List, [], ◌∷◌, arith, eq_iff, Dict, lookup, insert,
  lookup-insert, sum_values, sum_values-insert, All,
}
use meshpay.Weights.{Entry, entry_sum, set_all}

-- No name stands in the list.
abbrev pub IsNew : String → List Entry → Type 0
IsNew k = All (λ e. e.0 ≢ k)

-- The names differ from each other.
abbrev pub IsDistinct : List Entry → Type 0
IsDistinct [] = Unit
IsDistinct (e ∷ es) = IsNew e.0 es × IsDistinct es

-- Each name of the list has an entry of 0 in the dict.
abbrev pub IsZeroed : Dict ℕ → List Entry → Type 0
IsZeroed d = All (λ e. lookup e.0 d ≡ some 0)

pub IsZeroed-insert :
    (k : String) (v : ℕ) (d : Dict ℕ) (es : List Entry)
    → IsNew k es
    → IsZeroed d es
    → IsZeroed (insert k v d) es
IsZeroed-insert k v d [] n z = tt
IsZeroed-insert k v d (e ∷ es) n z =
    (ground (arith, lookup-insert k e.0 v d, eq_iff k e.0), IsZeroed-insert k v d es n.1 z.1)

pub lookup-set_all_ne :
    (f : Entry → ℕ) (k : String) (es : List Entry) (d : Dict ℕ)
    → IsNew k es
    → lookup k (set_all f es d) ≡ lookup k d
lookup-set_all_ne f k [] d n = refl
lookup-set_all_ne f k (e ∷ es) d n = ground (
  arith,
  lookup-set_all_ne f k es (insert e.0 (f e) d) n.1,
  lookup-insert e.0 k (f e) d,
  eq_iff e.0 k,
)

-- Assigning to distinct names that hold 0 adds the values to the sum.
pub sum_values-set_all :
    (f : Entry → ℕ) (es : List Entry) (d : Dict ℕ)
    → IsDistinct es
    → IsZeroed d es
    → sum_values (set_all f es d) ≡ sum_values d + entry_sum f es
sum_values-set_all f [] d n z = omega arith
sum_values-set_all f (e ∷ es) d n z = omega (
  arith,
  sum_values-set_all f es (insert e.0 (f e) d) n.1 (IsZeroed-insert e.0 (f e) d es n.0 z.1),
  sum_values-insert e.0 (f e) 0 d z.0,
)

-- Names outside the block keep their 0.
pub IsZeroed-set_all :
    (f : Entry → ℕ) (es ks : List Entry) (d : Dict ℕ)
    → All (λ k. IsNew k.0 es) ks
    → IsZeroed d ks
    → IsZeroed (set_all f es d) ks
IsZeroed-set_all f es [] d n z = tt
IsZeroed-set_all f es (k ∷ ks) d n z =
    (lookup-set_all_ne f k.0 es d n.0 ∙ z.0, IsZeroed-set_all f es ks d n.1 z.1)
