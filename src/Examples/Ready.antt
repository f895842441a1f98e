-- ===== src/Examples/Ready.antt =====
-- The registry of the four authorities and its first file are in order.
use meshpay.Base.{refl, [], ◌∷◌, IsNodup, contains-false, arith}
use meshpay.Registry.Invariant.{IsRegistry, IsSound, IsValid}
use meshpay.Authority.Refresh.{IsReady}
use meshpay.Examples.{python, four, quarters, registry, first_state, node_a}

pub four-IsNodup : IsNodup four
four-IsNodup = (
  contains-false "a" ("b" ∷ "c" ∷ "d" ∷ []) refl,
  (contains-false "b" ("c" ∷ "d" ∷ []) refl, (contains-false "c" ("d" ∷ []) refl, (tt, tt))),
)

pub registry-IsRegistry : IsRegistry registry
registry-IsRegistry = record {
  members = omega arith;
  distinct = four-IsNodup;
  sized = omega arith;
  ascii = refl;
}

pub quarters-IsSound : IsSound python registry 0 quarters
quarters-IsSound = record {
  of_epoch = refl;
  of_committee = refl;
  digest = refl;
  total = refl;
  weighted = refl;
  capped = (omega arith, (omega arith, (omega arith, (omega arith, tt))));
  exact = refl;
}

pub first_state-IsValid : IsValid python registry first_state
first_state-IsValid = record {
  base = record {
    version = refl;
    committee = refl;
    digest = refl;
    epoch_size = refl;
    share = refl;
    counted = refl;
    pending = refl;
    sound = ((omega arith, quarters-IsSound), tt);
    current = λ h. cc;
  };
  in_epoch = omega arith;
}

pub node_a-IsReady : IsReady python node_a
node_a-IsReady = record { registry = registry-IsRegistry; file = first_state-IsValid }
