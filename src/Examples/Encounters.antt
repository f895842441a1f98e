-- ===== src/Examples/Encounters.antt =====
-- Floats in parts per thousand, and a PRoPHET router that meets a peer.
use native.Mathlib.Nat.{mul-le-mul_left}
use meshpay.Base.{
  ℕ, ◌+◌, ◌-◌, ◌*◌, ◌/◌, ◌≤◌, ltb, ◌≡◌, refl, false, some, String, pos, [], ◌∷◌, arith, List,
}
use meshpay.Value.{Value, obj, Fields, end, field, real}
use meshpay.Prophet.{Floats, AtLeast, IsChance, Prophet, age_predictabilities, observe_peer_summary}
use meshpay.Prophet.Range.{FloatLaws, IsSane, chance_of, observe_peer_summary-chances}
use meshpay.Bundle.{Bundle}
use meshpay.Examples.Bundles.{order_bundle, confirmation_bundle}

abbrev thousandth : Value → ℕ
thousandth (real (pos n)) = n / 1000
thousandth _ = 0

abbrev floats : Floats
floats = record {
  Float = ℕ;
  nought = 0;
  one = 1000;
  small = 1;
  plus = λ x y. x + y;
  minus = λ x y. x - y;
  times = λ x y. x * y / 1000;
  less = ltb;
  decay = λ g elapsed interval. g;
  float_of = λ v. some (thousandth v);
  value_of = λ x. real (pos (x * 1000));
}

floats-FloatLaws : FloatLaws floats
floats-FloatLaws = record {
  one_pos = refl;
  less_asym = λ x y h. ground (arith, h);
  at_least_trans = λ x y z h k. ground (arith, h, k);
  times_low = λ x y h k. ground arith;
  times_high = λ x y h chance. shrinks x y (ground (arith, chance.high));
  minus_low = λ x h. ground arith;
  plus_high = λ x y h. ground arith;
  decay_chance = λ g e i chance. chance;
}
  where
    shrinks : (x y : ℕ) → y ≤ 1000 → ltb x (x * y / 1000) ≡ false
    shrinks x y h =
        let product : x * y ≤ x * 1000 = mul-le-mul_left x h in
        let bound : x * y / 1000 ≤ x = omega (arith, product) in ground (arith, bound)

abbrev prophet : Prophet floats
prophet = record {
  node = "ann";
  discovery_interval = 3_000_000;
  max_bundles_per_exchange = 6;
  p_init = 750;
  beta = 500;
  gamma = 995;
  epsilon = 0;
  replication_budget = 1;
  predictabilities = ("bob", 100) ∷ [];
  peer_predictabilities = [];
  forwarded_to = ("b1", "d" ∷ []) ∷ [];
  last_aged_at = pos 5;
}

-- The peer says that it reaches bob nearly always.
abbrev peer_summary : Fields
peer_summary =
    field "routing"
      (obj (field "predictabilities" (obj (field "bob" (real (pos 900_000)) end)) end)) end

chance : (n : ℕ) → n ≤ 1000 → IsChance floats n
chance n h = record { low = ground arith; high = ground (arith, h) }

prophet-IsSane : IsSane floats floats-FloatLaws prophet
prophet-IsSane = record {
  aging = chance 995 (omega arith);
  first = chance 750 (omega arith);
  own = (chance 100 (omega arith), tt);
  of_peers = tt;
}

observe_peer_summary-chances_example :
    IsSane floats floats-FloatLaws (observe_peer_summary floats (pos 9) "c" peer_summary prophet)
    × ((t : String)
        → AtLeast floats
            (chance_of floats floats-FloatLaws t
              (observe_peer_summary floats (pos 9) "c" peer_summary prophet))
            (chance_of floats floats-FloatLaws t (age_predictabilities floats (pos 9) prophet)))
observe_peer_summary-chances_example =
    observe_peer_summary-chances floats floats-FloatLaws (pos 9) "c" peer_summary prophet
      prophet-IsSane

abbrev local_bundles : List Bundle
local_bundles = order_bundle ∷ confirmation_bundle ∷ []
