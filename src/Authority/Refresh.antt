-- ===== src/Authority/Refresh.antt =====
-- The calls that an authority makes of its registry succeed on a valid file.
use meshpay.Base.{ℕ, ◌≡◌, some, ap}
use meshpay.Value.{ok}
use meshpay.Runtime.{Runtime}
use meshpay.Registry.{RegistryState, authority_stats}
use meshpay.Registry.Invariant.{IsRegistry, IsValid, IsValidFile}
use meshpay.Registry.Initialize.{authority_stats-IsValid}
use meshpay.Authority.{refresh_weight_state}
use meshpay.Authority.Monad.{World, and_then, with_registry-ok, modify}

-- The registry object and its file are in order.
pub record IsReady (rt : Runtime) (w : World) : Type 0 where
  pub registry : IsRegistry w.node.registry
  pub file : IsValidFile rt w.node.registry w.file

-- The world after a refresh.
abbrev pub refreshed : World → ℕ → ℕ → RegistryState → World
refreshed w tx_count weight st = record w {
  node = record w.node { tx_count = tx_count; current_weight = weight };
  file = some st;
}

pub refresh_weight_state_lem :
    (rt : Runtime) (w : World)
    → IsReady rt w
    → (tx_count weight : ℕ) × (st : RegistryState) × (refresh_weight_state rt w
        ≡ (ok tt, refreshed w tx_count weight st))
      × IsValid rt w.node.registry st
unfolding refresh_weight_state
refresh_weight_state_lem rt w r =
    let (stats, st, read, valid) =
      authority_stats-IsValid rt w.node.registry w.node.name w.file r.registry r.file in
    (
      stats.0,
      stats.1,
      st,
      ap
          (and_then λ (read_stats : ℕ × ℕ).
            modify (λ n. record n { tx_count = read_stats.0; current_weight = read_stats.1 }))
          (with_registry-ok (λ reg. authority_stats rt reg w.node.name) w read),
      valid,
    )
