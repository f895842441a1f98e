-- ===== src/Registry/Finalize.antt =====
-- `record_finalization` on a valid file.
use meshpay.Base.{
  ℕ, ◌+◌, ◌<◌, ◌≤◌, ◌≡◌, ◌≢◌, refl, ◌∙◌, Bool, true, false, not, ◌||◌, some, String, List, [], ◌∷◌,
  ◌++◌, arith, sum_values, contains, All, length, if◌then◌else◌, Bool-cases, inl, inr, sort_names,
  unique, leb, nat_eq, All-unique, All-sort_names, length-sort_names, length-unique_pos,
}
use meshpay.Value.{ok}
use meshpay.Runtime.{Runtime}
use meshpay.Quorum.{WeightSnapshot}
use meshpay.Registry.{
  Registry, RegistryState, find_snapshot, set_snapshot, read_or_create, is_empty, all_members,
  roll_over, finalize_new, locked, record_finalization, clear_rewards,
}
use meshpay.Registry.Counts.{
  reward_each_lem, pay_rewards_lem, keys-clear_rewards, sum_values-clear_rewards, contains_self,
}
use meshpay.Registry.Invariant.{
  IsRegistry, IsSound, IsConfigured, IsValid, make_snapshot-IsSound, validate-IsValid,
  snapshot_of-IsSound,
}

-- All rewards of the state, paid and pending.
abbrev pub rewards : RegistryState → ℕ
rewards st = sum_values st.tx_counts + sum_values st.pending_rewards

find-set_snapshot_self :
    (n : ℕ) (s : WeightSnapshot) (l : List (ℕ × WeightSnapshot))
    → find_snapshot n (set_snapshot n s l) ≡ some s
find-set_snapshot_self n s [] = ground arith
find-set_snapshot_self n s ((e, t) ∷ l) = ground (arith, find-set_snapshot_self n s l)

find-set_snapshot_ne :
    (n m : ℕ) (s : WeightSnapshot) (l : List (ℕ × WeightSnapshot))
    → m ≢ n
    → find_snapshot m (set_snapshot n s l) ≡ find_snapshot m l
find-set_snapshot_ne n m s [] h = ground arith
find-set_snapshot_ne n m s ((e, t) ∷ l) h = ground (arith, find-set_snapshot_ne n m s l h)

kept-set_snapshot :
    (n epoch : ℕ) (s : WeightSnapshot) (l : List (ℕ × WeightSnapshot))
    → find_snapshot epoch (set_snapshot (n + 1) s l) ≡ (
        if leb epoch n
        then find_snapshot epoch l
        else find_snapshot epoch (set_snapshot (n + 1) s l))
kept-set_snapshot n epoch s l = ground (arith, find-set_snapshot_ne (n + 1) epoch s l)

if_same {ℓ} : {A : Type ℓ} (b : Bool) (x : A) → x ≡ (if b then x else x)
if_same true x = refl
if_same false x = refl

module _ (rt : Runtime) (reg : Registry) where
  IsSound-set_snapshot :
      (n : ℕ) (s : WeightSnapshot) (l : List (ℕ × WeightSnapshot))
      → IsSound rt reg (n + 1) s
      → All (λ e. (e.0 ≤ n) × IsSound rt reg e.0 e.1) l
      → All (λ e. (e.0 ≤ n + 1) × IsSound rt reg e.0 e.1) (set_snapshot (n + 1) s l)
  IsSound-set_snapshot n s [] g h = ((omega arith, g), tt)
  IsSound-set_snapshot n s ((e, t) ∷ l) g h = elim (Bool-cases (nat_eq e (n + 1))) [
    | inl same ↦ absurd (ground arith)
    | inr other ↦ rw other ((omega arith, h.0.1), IsSound-set_snapshot n s l g h.1)
  ]

  -- From one state to a later one the stored snapshots stay, and the epoch does not fall.
  pub record Extends (st st' : RegistryState) : Type 0 where
    pub advances : st.current_epoch ≤ st'.current_epoch
    pub kept :
        (epoch : ℕ)
        → find_snapshot epoch st'.snapshots ≡ (
            if leb epoch st.current_epoch
            then find_snapshot epoch st.snapshots
            else find_snapshot epoch st'.snapshots)

  Extends-refl : (st : RegistryState) → Extends st st
  Extends-refl st = record {
    advances = omega arith;
    kept = λ epoch. if_same (leb epoch st.current_epoch) (find_snapshot epoch st.snapshots);
  }

  -- The rollover moves the pending rewards into the counts and adds a sound snapshot.
  roll_over_lem :
      (st : RegistryState)
      → IsRegistry reg
      → IsConfigured rt reg st
      → (st' : RegistryState) × (roll_over rt reg st ≡ ok st')
        × IsValid rt reg st'
        × (rewards st' ≡ rewards st)
        × Extends st st'
        × (st'.finalized_order_ids ≡ st.finalized_order_ids)
  unfolding roll_over
  roll_over_lem st r v =
      let (counts, paid, same, more) =
        pay_rewards_lem st.pending_rewards st.tx_counts
          (rw (v.counted, v.pending) (contains_self reg.committee)) in
      let rolled = record st {
        tx_counts = counts;
        pending_rewards = clear_rewards st.pending_rewards;
        finalizations_in_epoch = 0;
        current_epoch = st.current_epoch + 1;
      } in
      let (s, made, good) = make_snapshot-IsSound rt reg r rolled (same ∙ v.counted) in
      (
        record rolled { snapshots = set_snapshot (st.current_epoch + 1) s st.snapshots },
        rw (paid, made),
        record {
          base = record {
            version = v.version;
            committee = v.committee;
            digest = v.digest;
            epoch_size = v.epoch_size;
            share = v.share;
            counted = same ∙ v.counted;
            pending = keys-clear_rewards st.pending_rewards ∙ v.pending;
            sound = IsSound-set_snapshot st.current_epoch s st.snapshots good v.sound;
            current = λ missing. cc (find-set_snapshot_self (st.current_epoch + 1) s st.snapshots);
          };
          in_epoch = r.sized;
        },
        omega (arith, more, sum_values-clear_rewards st.pending_rewards),
        record {
          advances = omega arith;
          kept = λ epoch. kept-set_snapshot st.current_epoch epoch s st.snapshots;
        },
        refl,
      )

  -- A new finalization never fails for members: each signer gets one reward, the order id is noted,
  -- and the stored snapshots stay.
  finalize_new_lem :
      (order_id : String) (signers : List String) (st : RegistryState)
      → IsRegistry reg
      → IsValid rt reg st
      → All (λ a. contains a reg.committee ≡ true) signers
      → (st' : RegistryState) × (finalize_new rt reg order_id signers st ≡ ok st')
        × IsValid rt reg st'
        × (rewards st' ≡ rewards st + length signers)
        × Extends st st'
        × (st'.finalized_order_ids ≡ st.finalized_order_ids ++ (order_id ∷ []))
  unfolding finalize_new
  finalize_new_lem order_id signers st r v members =
      let (pending, given, same, more) =
        reward_each_lem signers st.pending_rewards (rw v.pending members) in
      let counted = record st {
        finalized_order_ids = st.finalized_order_ids ++ (order_id ∷ []);
        pending_rewards = pending;
        finalizations_in_epoch = st.finalizations_in_epoch + 1;
      } in
      let configured : IsConfigured rt reg counted = record {
        version = v.version;
        committee = v.committee;
        digest = v.digest;
        epoch_size = v.epoch_size;
        share = v.share;
        counted = v.counted;
        pending = same ∙ v.pending;
        sound = v.sound;
        current = v.current;
      } in
      elim (Bool-cases (leb reg.epoch_size (st.finalizations_in_epoch + 1))) [
        | inl over ↦
            let (st', rolled, good, kept, longer, ids) = roll_over_lem counted r configured in
            (
              st',
              rw (given, over) rolled,
              good,
              omega (arith, kept, more),
              record { advances = longer.advances; kept = longer.kept },
              ids,
            )
        | inr early ↦ (
          counted,
          rw (given, early),
          record { base = configured; in_epoch = ground arith },
          omega (arith, more),
          record {
            advances = omega arith;
            kept = λ epoch. if_same (leb epoch st.current_epoch) (find_snapshot epoch st.snapshots);
          },
          refl,
        )
      ]

  -- What a finalization promises about the file, given the number of rewards and the noted ids.
  pub record Records (st st' : RegistryState) (order_id : String) (names : List String)
      (s : WeightSnapshot) : Type 0 where
    pub valid : IsValid rt reg st'
    pub sound : IsSound rt reg st'.current_epoch s
    pub rewarded :
        rewards st'
        ≡ rewards st + (if contains order_id st.finalized_order_ids then 0 else length names)
    pub noted : st'.finalized_order_ids ≡ (
        if contains order_id st.finalized_order_ids
        then st.finalized_order_ids
        else st.finalized_order_ids ++ (order_id ∷ []))
    pub extends : Extends st st'

  all_members-All :
      (names : List String)
      → All (λ a. contains a reg.committee ≡ true) names
      → all_members rt reg names ≡ true
  unfolding all_members
  all_members-All [] h = refl
  all_members-All (a ∷ names) h = rw (h.0, all_members-All names h.1)

  is_empty-false : (names : List String) → 0 < length names → is_empty names ≡ false
  is_empty-false [] h = absurd (omega arith)
  is_empty-false (a ∷ names) h = refl

  passes_checks :
      (signers : List String)
      → 0 < length signers
      → All (λ a. contains a reg.committee ≡ true) signers
      → (is_empty (sort_names (unique signers))
          || not (all_members rt reg (sort_names (unique signers))))
        ≡ false
  passes_checks signers n h =
      let names = sort_names (unique signers) in
      rw (
        all_members-All names (All-sort_names _ (unique signers) (All-unique _ signers h)),
        is_empty-false names
            (omega (arith, length-sort_names (unique signers), length-unique_pos signers n)),
      )

  -- For a registry that is in order, recording a finalization by committee members on a valid file
  -- succeeds. The file stays valid and the returned snapshot is that of its current epoch, sound; an order id that is new is noted and
  -- earns one reward for each distinct signer, one that is noted already changes neither; and no
  -- snapshot of an epoch that had begun changes.
  pub record_finalization-Records :
      (order_id : String) (signers : List String) (st : RegistryState)
      → IsRegistry reg
      → IsValid rt reg st
      → 0 < length signers
      → All (λ a. contains a reg.committee ≡ true) signers
      → (s : WeightSnapshot) × (st' : RegistryState) × (record_finalization rt reg order_id signers
            (some st)
          ≡ ok (s, some st'))
        × Records st st' order_id (sort_names (unique signers)) s
  unfolding record_finalization locked read_or_create
  record_finalization-Records order_id signers st r v n h =
      elim (Bool-cases (contains order_id st.finalized_order_ids)) [
        | inl old ↦
            let (s, found, good) = snapshot_of-IsSound rt reg st v in
            (
              s,
              st,
              rw (passes_checks signers n h, validate-IsValid rt reg r st v, old, found),
              record {
                valid = v;
                sound = good;
                rewarded = rw old (omega arith);
                noted = rw old;
                extends = Extends-refl st;
              },
            )
        | inr new ↦
            let (st', done, good, more, longer, ids) =
              finalize_new_lem order_id (sort_names (unique signers)) st r v
                (All-sort_names _ (unique signers) (All-unique _ signers h)) in
            let (s, found, fine) = snapshot_of-IsSound rt reg st' good in
            (
              s,
              st',
              rw (passes_checks signers n h, validate-IsValid rt reg r st v, new, done, found),
              record {
                valid = good;
                sound = fine;
                rewarded = rw new more;
                noted = rw new ids;
                extends = longer;
              },
            )
      ]
