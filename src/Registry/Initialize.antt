-- ===== src/Registry/Initialize.antt =====
-- The first call creates the file, and later reads agree with it.
use mathlib.Core.Option.{get_or}
use meshpay.Base.{ℕ, ◌≡◌, some, String, lookup}
use meshpay.Base.{pos}
use meshpay.Value.{ok}
use meshpay.Runtime.{Runtime}
use meshpay.Quorum.{WeightSnapshot, weight_for}
use meshpay.Registry.{
  Registry, RegistryState, RegistryFile, find_snapshot, initialize, locked, read_or_create,
  snapshot_for_epoch, authority_stats,
}
use meshpay.Registry.Invariant.{
  IsRegistry, IsSound, IsValid, IsValidFile, read_or_create-IsValid, validate-IsValid,
  snapshot_of-IsSound,
}

module _ (rt : Runtime) (reg : Registry) where
  -- For a registry that is in order, on an absent or valid file, `initialize` succeeds: the file is
  -- then there and valid, the snapshot is the sound one of the current epoch, and a second call
  -- returns the same and changes nothing.
  pub initialize-IsSound :
      (file : RegistryFile)
      → IsRegistry reg
      → IsValidFile rt reg file
      → (s : WeightSnapshot) × (st : RegistryState) × (initialize rt reg file ≡ ok (s, some st))
        × IsValid rt reg st
        × IsSound rt reg st.current_epoch s
        × (initialize rt reg (some st) ≡ ok (s, some st))
  unfolding initialize locked read_or_create
  initialize-IsSound file r v =
      let (st, opened, good) = read_or_create-IsValid rt reg r file v in
      let (s, found, sound) = snapshot_of-IsSound rt reg st good in
      (
        s,
        st,
        rw (opened, validate-IsValid rt reg r st good, found),
        good,
        sound,
        rw (validate-IsValid rt reg r st good, found),
      )

  -- On a valid file a snapshot is looked up without changing the file.
  pub snapshot_for_epoch-valid :
      (epoch : ℕ) (st : RegistryState)
      → IsRegistry reg
      → IsValid rt reg st
      → snapshot_for_epoch rt reg (pos epoch) (some st)
        ≡ ok (find_snapshot epoch st.snapshots, some st)
  unfolding snapshot_for_epoch locked read_or_create
  snapshot_for_epoch-valid epoch st r v = rw (validate-IsValid rt reg r st v)

  -- The counts of an authority can be read from an absent or valid file.
  pub authority_stats-IsValid :
      (authority : String) (file : RegistryFile)
      → IsRegistry reg
      → IsValidFile rt reg file
      → (stats : ℕ × ℕ) × (st : RegistryState) × (authority_stats rt reg authority file
          ≡ ok (stats, some st))
        × IsValid rt reg st
  unfolding authority_stats locked read_or_create
  authority_stats-IsValid authority file r v =
      let (s, st, opened, good, sound, again) = initialize-IsSound file r v in
      ((get_or (lookup authority st.tx_counts) 0, weight_for s authority), st, rw opened, good)
