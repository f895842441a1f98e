-- ===== src/Registry/Invariant.antt =====
-- The invariant of the registry file, and what a snapshot promises.
use meshpay.Base.{
  ℕ, ◌<◌, ◌≤◌, ◌≡◌, ◌≢◌, refl, ap, ◌∙◌, true, none, some, String, eq_iff, List, [], ◌∷◌, arith,
  keys, sum_values, All, length, Bool-cases, inl, inr, IsNodup, nat_eq, eq_refl, Option-cases,
}
use mathlib.Core.Path.{subst}
use meshpay.Value.{ok, ◌>>=◌}
use meshpay.Runtime.{Runtime}
use meshpay.Quorum.{WeightSnapshot}
use meshpay.Weights.{total_weight_units, power_cap}
use meshpay.Weights.Settle.{IsCapped}
use meshpay.Weights.Allocate.{allocate_weights-pays, zero_entries-keys}
use meshpay.Registry.{
  Registry, RegistryState, RegistryFile, find_snapshot, same_names, committee_digest, names_digest,
  is_ascii, join_names, make_snapshot, blank_state, read_or_create, validate_configuration,
  snapshot_of,
}
use meshpay.Registry.Counts.{restrict_total, contains_self}

-- A registry object that its constructor has let through.
pub record IsRegistry (reg : Registry) : Type 0 where
  pub members : 0 < length reg.committee
  pub distinct : IsNodup reg.committee
  pub sized : 0 < reg.epoch_size
  pub ascii : is_ascii (join_names reg.committee) ≡ true

-- A snapshot of the epoch: the registry's committee, all of it and nobody else weighted, each member
-- up to the cap, and the weights add up to the total.
pub record IsSound (rt : Runtime) (reg : Registry) (epoch : ℕ) (s : WeightSnapshot) : Type 0 where
  pub of_epoch : s.epoch ≡ epoch
  pub of_committee : s.committee ≡ reg.committee
  pub digest : s.committee_digest ≡ names_digest rt reg
  pub total : s.total_weight_units ≡ total_weight_units
  pub weighted : keys s.weights ≡ reg.committee
  pub capped : IsCapped (power_cap (length reg.committee) reg.max_power_share) s.weights
  pub exact : sum_values s.weights ≡ total_weight_units

-- The file belongs to this registry, its counters cover the committee and its snapshots are sound.
pub record IsConfigured (rt : Runtime) (reg : Registry) (st : RegistryState) : Type 0 where
  pub version : st.version ≡ 1
  pub committee : st.committee ≡ reg.committee
  pub digest : st.committee_digest ≡ names_digest rt reg
  pub epoch_size : st.epoch_size ≡ reg.epoch_size
  pub share : st.max_power_share ≡ reg.max_power_share
  pub counted : keys st.tx_counts ≡ reg.committee
  pub pending : keys st.pending_rewards ≡ reg.committee
  pub sound : All (λ e. (e.0 ≤ st.current_epoch) × IsSound rt reg e.0 e.1) st.snapshots
  pub current : find_snapshot st.current_epoch st.snapshots ≢ none

-- Besides, the epoch is not over.
pub record IsValid (rt : Runtime) (reg : Registry) (st : RegistryState) : Type 0 where
  pub base : IsConfigured rt reg st
  pub open base use *
  pub in_epoch : st.finalizations_in_epoch < reg.epoch_size

-- The file is absent or valid.
abbrev pub IsValidFile : Runtime → Registry → RegistryFile → Type 0
IsValidFile rt reg none = Unit
IsValidFile rt reg (some st) = IsValid rt reg st

same_names_refl : (xs : List String) → same_names xs xs ≡ true
same_names_refl [] = refl
same_names_refl (x ∷ xs) = ground (arith, eq_iff x x, same_names_refl xs)

module _ (rt : Runtime) (reg : Registry) where
  digest-ok : IsRegistry reg → committee_digest rt reg ≡ ok (names_digest rt reg)
  digest-ok r = rw r.ascii

  -- Making a snapshot never fails where the counts cover the committee, and the snapshot is sound.
  pub make_snapshot-IsSound :
      IsRegistry reg
      → (st : RegistryState) → keys st.tx_counts ≡ reg.committee
      → (s : WeightSnapshot) × (make_snapshot rt reg st ≡ ok s) × IsSound rt reg st.current_epoch s
  unfolding make_snapshot
  make_snapshot-IsSound r st counted =
      let (counts, read) =
        restrict_total st.tx_counts reg.committee (rw counted (contains_self reg.committee)) in
      let (weights, given, paid, within, covers) =
        allocate_weights-pays reg.committee reg.max_power_share counts r.members r.distinct in
      (
        record {
          epoch = st.current_epoch;
          committee = reg.committee;
          committee_digest = names_digest rt reg;
          weights = weights;
          total_weight_units = total_weight_units;
        },
        rw (read, digest-ok r, given),
        record {
          of_epoch = refl;
          of_committee = refl;
          digest = refl;
          total = refl;
          weighted = covers;
          capped = within;
          exact = paid;
        },
      )

  -- The first call creates a valid file, and a valid file is read as it is.
  pub read_or_create-IsValid :
      IsRegistry reg
      → (file : RegistryFile) → IsValidFile rt reg file
      → (st : RegistryState) × (read_or_create rt reg file ≡ ok st) × IsValid rt reg st
  unfolding read_or_create
  read_or_create-IsValid r none v =
      let (s, made, good) =
        make_snapshot-IsSound r (blank_state rt reg (names_digest rt reg))
          (zero_entries-keys reg.committee) in
      (
        record (blank_state rt reg (names_digest rt reg)) { snapshots = (0, s) ∷ [] },
        ap
              (λ d. d >>= λ digest. make_snapshot rt reg (blank_state rt reg digest) >>= λ first.
                ok (record (blank_state rt reg digest) { snapshots = (0, first) ∷ [] }))
              (digest-ok r)
            ∙ rw made,
        record {
          base = record {
            version = refl;
            committee = refl;
            digest = refl;
            epoch_size = refl;
            share = refl;
            counted = zero_entries-keys reg.committee;
            pending = zero_entries-keys reg.committee;
            sound = ((omega arith, good), tt);
            current = λ missing. cc;
          };
          in_epoch = r.sized;
        },
      )
  read_or_create-IsValid r (some st) v = (st, refl, v)

  -- A valid state passes the configuration check.
  pub validate-IsValid :
      IsRegistry reg
      → (st : RegistryState) → IsValid rt reg st
      → validate_configuration rt reg st ≡ ok tt
  unfolding validate_configuration
  validate-IsValid r st v =
      rw
        (
          digest-ok r,
          v.version,
          v.committee,
          same_names_refl reg.committee,
          v.digest,
          eq_refl (names_digest rt reg),
          v.epoch_size,
          v.share,
        )
        (ground arith)

  -- Every stored snapshot that is found is sound.
  pub find_snapshot-IsSound :
      (now epoch : ℕ) (l : List (ℕ × WeightSnapshot)) {s : WeightSnapshot}
      → All (λ e. (e.0 ≤ now) × IsSound rt reg e.0 e.1) l
      → find_snapshot epoch l ≡ some s
      → IsSound rt reg epoch s
  find_snapshot-IsSound now epoch [] h found = absurd (cc)
  find_snapshot-IsSound now epoch ((e, s) ∷ l) {s = r} h found =
      elim (Bool-cases (nat_eq e epoch)) [
        | inl here ↦
            let same : e ≡ epoch = ground arith in
            let it : s ≡ r = ground arith in
            subst (IsSound rt reg epoch) it (subst (λ n. IsSound rt reg n s) same h.0.1)
        | inr there ↦ find_snapshot-IsSound now epoch l h.1 (rw there at found)
      ]

  -- A valid state has a sound current snapshot.
  pub snapshot_of-IsSound :
      (st : RegistryState)
      → IsValid rt reg st
      → (s : WeightSnapshot) × (snapshot_of rt reg st ≡ ok s) × IsSound rt reg st.current_epoch s
  unfolding snapshot_of
  snapshot_of-IsSound st v = elim (Option-cases (find_snapshot st.current_epoch st.snapshots)) [
    | inl missing ↦ absurd (v.current missing)
    | inr (s, found) ↦ (
      s,
      rw found,
      find_snapshot-IsSound st.current_epoch st.current_epoch st.snapshots v.sound found,
    )
  ]
