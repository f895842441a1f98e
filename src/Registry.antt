-- ===== src/Registry.antt =====
-- `WeightRegistry` (meshpay/offline/weighted_quorum.py): the registry file is `none` until the first
-- call creates it; a call that raises leaves the file as it was.
pub mod Counts
pub mod Invariant
pub mod Finalize
pub mod Initialize
use meshpay.Base.{
  ℕ, ◌+◌, ◌≤◌, ◌≡◌, Bool, true, false, not, ◌&&◌, ◌||◌, Option, none, some, String, ℤ, pos, negsuc,
  ◌==◌, ltb, leb, nat_eq, if◌then◌else◌, List, [], ◌∷◌, ◌++◌, map, Dict, lookup, insert, contains,
  unique, sort_names,
}
use Prim.Native.Char.{code}
use Prim.Native.String as Str
use Prim.Native.String.{◌++◌ as concat}
use mathlib.Core.Option.{get_or}
use meshpay.Value.{
  Result, ok, err, value_error, key_error, out_of_fuel, or_raise, raise_if, ◌>>=◌, ◌>>◌,
}
use meshpay.Runtime.{Runtime}
use meshpay.Quorum.{WeightSnapshot, weight_for}
use meshpay.Weights.{total_weight_units, allocate_weights, zero_entry}

-- The constructor's arguments; the share is in units of the total.
pub record Registry : Type 0 where
  pub committee : List String
  pub epoch_size : ℕ
  pub max_power_share : ℕ

pub record RegistryState : Type 0 where
  pub version : ℕ
  pub committee : List String
  pub committee_digest : String
  pub epoch_size : ℕ
  pub max_power_share : ℕ
  pub current_epoch : ℕ
  pub tx_counts : Dict ℕ
  pub pending_rewards : Dict ℕ
  pub finalizations_in_epoch : ℕ
  pub finalized_order_ids : List String
  pub snapshots : List (ℕ × WeightSnapshot)

abbrev pub RegistryFile : Type 0
RegistryFile = Option RegistryState

abbrev pub is_empty : List String → Bool
is_empty [] = true
is_empty (_ ∷ _) = false

-- `WeightRegistry.__init__`
unfoldable pub new_registry : List String → ℕ → ℕ → Result Registry
new_registry committee epoch_size max_power_share = do
  let members = sort_names (unique committee)
  raise_if (is_empty members) value_error
  raise_if (ltb epoch_size 1) value_error
  raise_if (not (ltb 0 max_power_share && leb max_power_share total_weight_units)) value_error
  ok (record { committee = members; epoch_size = epoch_size; max_power_share = max_power_share })

-- `snapshots.get(str(epoch))` and `snapshots[str(epoch)] = snapshot`
abbrev pub find_snapshot : ℕ → List (ℕ × WeightSnapshot) → Option WeightSnapshot
find_snapshot epoch [] = none
find_snapshot epoch ((e, s) ∷ rest) = if nat_eq e epoch then some s else find_snapshot epoch rest

abbrev pub set_snapshot : ℕ → WeightSnapshot → List (ℕ × WeightSnapshot) → List (ℕ × WeightSnapshot)
set_snapshot epoch snapshot [] = (epoch, snapshot) ∷ []
set_snapshot epoch snapshot ((e, s) ∷ rest) =
    if nat_eq e epoch then (e, snapshot) ∷ rest else (e, s) ∷ set_snapshot epoch snapshot rest

abbrev pub same_names : List String → List String → Bool
same_names [] [] = true
same_names (x ∷ xs) (y ∷ ys) = x == y && same_names xs ys
same_names _ _ = false

abbrev pub join_names : List String → String
join_names [] = ""
join_names (x ∷ []) = x
join_names (x ∷ y ∷ rest) = concat x (concat "," (join_names (y ∷ rest)))

-- `{name: int(state["tx_counts"][name]) for name in self.committee}`
abbrev pub restrict : Dict ℕ → List String → Result (Dict ℕ)
restrict d [] = ok []
restrict d (x ∷ xs) = do
  n ← or_raise (lookup x d) key_error
  rest ← restrict d xs
  ok ((x, n) ∷ rest)

-- `d[name] += n`
abbrev pub add_to : String → ℕ → Dict ℕ → Result (Dict ℕ)
add_to name n d = do old ← or_raise (lookup name d) key_error; ok (insert name (old + n) d)

-- `state["pending_rewards"][signer] += 1` for each signer.
abbrev pub reward_each : List String → Dict ℕ → Result (Dict ℕ)
reward_each [] d = ok d
reward_each (x ∷ xs) d = add_to x 1 d >>= reward_each xs

-- The loop that moves the pending rewards into the counts, over `pending_rewards.items()`.
abbrev pub pay_rewards : Dict ℕ → Dict ℕ → Result (Dict ℕ)
pay_rewards [] counts = ok counts
pay_rewards ((name, reward) ∷ rest) counts = add_to name reward counts >>= pay_rewards rest

abbrev pub clear_rewards : Dict ℕ → Dict ℕ
clear_rewards [] = []
clear_rewards ((name, reward) ∷ rest) = (name, 0) ∷ clear_rewards rest

-- Whether a text can be encoded as ASCII.
abbrev pub is_ascii : String → Bool
is_ascii Str.[] = true
is_ascii (Str.◌∷◌ c s) = ltb (code c) 128 && is_ascii s

module _ (rt : Runtime) (reg : Registry) where
  -- The digest of the committee's names.
  abbrev pub names_digest : String
  names_digest = rt.sha256 (join_names reg.committee)

  -- `_committee_digest`; a `UnicodeEncodeError` is a `ValueError`.
  abbrev pub committee_digest : Result String
  committee_digest = do
    raise_if (not (is_ascii (join_names reg.committee))) value_error
    ok names_digest

  -- `_make_snapshot`
  unfoldable pub make_snapshot : RegistryState → Result WeightSnapshot
  make_snapshot st = do
    tx_counts ← restrict st.tx_counts reg.committee
    digest ← committee_digest
    weights ← or_raise (allocate_weights reg.committee reg.max_power_share tx_counts) out_of_fuel
    ok (record {
      epoch = st.current_epoch;
      committee = reg.committee;
      committee_digest = digest;
      weights = weights;
      total_weight_units = total_weight_units;
    })

  -- The state of a new file, before its first snapshot.
  abbrev pub blank_state : String → RegistryState
  blank_state digest = record {
    version = 1;
    committee = reg.committee;
    committee_digest = digest;
    epoch_size = reg.epoch_size;
    max_power_share = reg.max_power_share;
    current_epoch = 0;
    tx_counts = map zero_entry reg.committee;
    pending_rewards = map zero_entry reg.committee;
    finalizations_in_epoch = 0;
    finalized_order_ids = [];
    snapshots = [];
  }

  -- `_read_or_create`
  unfoldable pub read_or_create : RegistryFile → Result RegistryState
  unfolding make_snapshot
  read_or_create (some st) = ok st
  read_or_create none = do
    digest ← committee_digest
    first ← make_snapshot (blank_state digest)
    ok (record (blank_state digest) { snapshots = (0, first) ∷ [] })

  -- `_validate_configuration`
  unfoldable pub validate_configuration : RegistryState → Result (Unit {0})
  validate_configuration st = do
    digest ← committee_digest
    raise_if (not (nat_eq st.version 1)) value_error
    raise_if (not (same_names st.committee reg.committee)) value_error
    raise_if (not (st.committee_digest == digest)) value_error
    raise_if (not (nat_eq st.epoch_size reg.epoch_size)) value_error
    raise_if (not (nat_eq st.max_power_share reg.max_power_share)) value_error

  -- `_snapshot`
  unfoldable pub snapshot_of : RegistryState → Result WeightSnapshot
  snapshot_of st = or_raise (find_snapshot st.current_epoch st.snapshots) key_error

  -- `_locked_state`: what the block returns, and the file that is written after it.
  unfoldable pub locked :
      {A : Type 0}
      → RegistryFile
      → (RegistryState → Result (A × RegistryState))
      → Result (A × RegistryFile)
  unfolding read_or_create
  locked file block = do st ← read_or_create file; (a, st') ← block st; ok (a, some st')

  -- `initialize`, and `current_snapshot`, which is the same.
  unfoldable pub initialize : RegistryFile → Result (WeightSnapshot × RegistryFile)
  unfolding locked validate_configuration snapshot_of
  initialize file = locked file λ st. do validate_configuration st; s ← snapshot_of st; ok (s, st)

  -- `snapshot_for_epoch`; no negative epoch is stored.
  unfoldable pub snapshot_for_epoch :
      ℤ → RegistryFile → Result (Option WeightSnapshot × RegistryFile)
  unfolding locked validate_configuration
  snapshot_for_epoch (pos epoch) file =
      locked file λ st. do validate_configuration st; ok (find_snapshot epoch st.snapshots, st)
  snapshot_for_epoch (negsuc _) file = locked file λ st. do validate_configuration st; ok (none, st)

  -- The epoch rollover in `record_finalization`.
  unfoldable pub roll_over : RegistryState → Result RegistryState
  unfolding make_snapshot
  roll_over st = do
    counts ← pay_rewards st.pending_rewards st.tx_counts
    let rolled = record st {
      tx_counts = counts;
      pending_rewards = clear_rewards st.pending_rewards;
      finalizations_in_epoch = 0;
      current_epoch = st.current_epoch + 1;
    }
    snapshot ← make_snapshot rolled
    ok (record rolled { snapshots = set_snapshot rolled.current_epoch snapshot st.snapshots })

  unfoldable pub all_members : List String → Bool
  all_members [] = true
  all_members (x ∷ xs) = contains x reg.committee && all_members xs

  -- The part of `record_finalization` for an order id that is new.
  unfoldable pub finalize_new : String → List String → RegistryState → Result RegistryState
  unfolding roll_over
  finalize_new order_id signers st = do
    rewards ← reward_each signers st.pending_rewards
    let counted = record st {
      finalized_order_ids = st.finalized_order_ids ++ (order_id ∷ []);
      pending_rewards = rewards;
      finalizations_in_epoch = st.finalizations_in_epoch + 1;
    }
    if leb reg.epoch_size counted.finalizations_in_epoch then roll_over counted else ok counted

  -- `record_finalization`
  unfoldable pub record_finalization :
      String → List String → RegistryFile → Result (WeightSnapshot × RegistryFile)
  unfolding locked validate_configuration snapshot_of finalize_new all_members
  record_finalization order_id signers file = do
    let unique_signers = sort_names (unique signers)
    raise_if (is_empty unique_signers || not (all_members unique_signers)) value_error
    locked file λ st. do
      validate_configuration st
      st' ←
          if contains order_id st.finalized_order_ids
          then ok st
          else finalize_new order_id unique_signers st
      s ← snapshot_of st'
      ok (s, st')

  -- `authority_stats`; the second look at the file does not validate it.
  unfoldable pub authority_stats : String → RegistryFile → Result ((ℕ × ℕ) × RegistryFile)
  unfolding initialize locked
  authority_stats authority file = do
    (snapshot, file') ← initialize file
    locked file'
        λ st. ok ((get_or (lookup authority st.tx_counts) 0, weight_for snapshot authority), st)
