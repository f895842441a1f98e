-- ===== src/Client/Settle.antt =====
-- The vote that completes a quorum, from the registry file to the receivers' test.
use mathlib.Core.Option.{get_or}
use mathlib.Core.Path.{subst}
use meshpay.Base.{
  ℕ, ◌<◌, ◌≡◌, ◌≢◌, refl, ap, ◌∙◌, true, false, none, some, String, ◌==◌, eq_iff, eq_refl,
  if◌then◌else◌, Dict, lookup, insert, erase, keys, All, All-insert, IsNodup, has_key-lookup,
  lookup-erase_ne, ℤ, pos, ◌-ℤ◌, ltb_ℤ, leb_ℤ, arith, List, [], ◌∷◌, ◌++◌, map, length, contains,
  Bool-cases, inl, inr,
}
use meshpay.Value.{ok}
use meshpay.Runtime.{Runtime}
use meshpay.Transaction.Transfer.{TransferOrder}
use meshpay.Transaction.Vote.{AuthorityVote}
use meshpay.Transaction.Signed.{SignedTransferOrder}
use meshpay.Transaction.Confirmation.{ConfirmationOrder}
use meshpay.Quorum.{WeightSnapshot, verify_authority_vote, has_weighted_quorum}
use meshpay.Registry.{RegistryState, RegistryFile, find_snapshot, snapshot_for_epoch}
use meshpay.Registry.Invariant.{IsRegistry, IsSound, IsValid, find_snapshot-IsSound}
use meshpay.Registry.Initialize.{snapshot_for_epoch-valid}
use meshpay.Registry.Finalize.{record_finalization-Records}
use meshpay.Wallet.{Wallet, can_debit}
use meshpay.Account.{Account}
use meshpay.Authority.{validate_confirmation, all_verify}
use meshpay.Authority.Monad.{World}
use meshpay.Client.{
  votes_of, other_epoch, signers_of, certificate, handle_signed_transfer, account_balance,
}
use meshpay.Client.Monad.{Station}
use meshpay.Client.Certificate.{certificate-is_certified}
use meshpay.Client.Collect.{handle_signed_transfer-pays}

-- The votes of collected signatures.
abbrev pub collected_votes : Dict SignedTransferOrder → List AuthorityVote
collected_votes signatures = map (λ e. e.1.authority_vote) signatures

votes_of_lem : (d : Dict SignedTransferOrder) → votes_of d ≡ collected_votes d
votes_of_lem [] = refl
votes_of_lem ((k, s) ∷ d) = ap (λ vs. s.authority_vote ∷ vs) (votes_of_lem d)

lookup-missing :
    {V : Type 0} (k : String) (d : Dict V) → All (λ j. j ≢ k) (keys d) → lookup k d ≡ none
lookup-missing k [] h = refl
lookup-missing k ((j, v) ∷ d) (other, h) = ground (arith, other, eq_iff j k, lookup-missing k d h)

lookup-erase :
    {V : Type 0} (k : String) (d : Dict V) → IsNodup (keys d) → lookup k (erase k d) ≡ none
lookup-erase k [] h = refl
lookup-erase k ((j, v) ∷ d) (new, h) = elim (Bool-cases (j == k)) [
  | inl same ↦
      let e : j ≡ k = ground (arith, same, eq_iff j k) in
      rw same (lookup-missing k d (subst (λ x. All (λ y. y ≢ x) (keys d)) e new))
  | inr other ↦ rw other (rw other (lookup-erase k d h))
]

contains-last : (x : String) (xs : List String) → contains x (xs ++ (x ∷ [])) ≡ true
contains-last x [] = rw (eq_refl x) refl
contains-last x (y ∷ ys) = elim (Bool-cases (y == x)) [
  | inl same ↦ rw same refl
  | inr other ↦ rw other (contains-last x ys)
]

noted_there :
    (x : String) (xs : List String)
    → contains x (if contains x xs then xs else xs ++ (x ∷ [])) ≡ true
noted_there x xs = elim (Bool-cases (contains x xs)) [
  | inl old ↦ rw old old
  | inr new ↦ rw new (contains-last x xs)
]

module _ (rt : Runtime) (order : TransferOrder) (s : WeightSnapshot) where
  -- Every collected vote verifies for the order under the snapshot.
  abbrev pub AllVerify : Dict SignedTransferOrder → Type 0
  AllVerify signatures =
      All (λ e. verify_authority_vote rt order e.1.authority_vote s ≡ true) signatures

  all_verify-AllVerify :
      (d : Dict SignedTransferOrder) → AllVerify d → all_verify rt order s (votes_of d) ≡ true
  unfolding all_verify
  all_verify-AllVerify [] h = refl
  all_verify-AllVerify ((k, v) ∷ d) (here, h) = rw (here, all_verify-AllVerify d h)

  epoch_verified :
      (v : AuthorityVote) → verify_authority_vote rt order v s ≡ true → v.epoch ≡ pos s.epoch
  unfolding verify_authority_vote
  epoch_verified v h = ground (arith, h)

  member_verified :
      (v : AuthorityVote)
      → verify_authority_vote rt order v s ≡ true
      → contains v.authority s.committee ≡ true
  unfolding verify_authority_vote
  member_verified v h = ground (arith, h)

  one_epoch :
      (d : Dict SignedTransferOrder) (v : AuthorityVote)
      → AllVerify d
      → verify_authority_vote rt order v s ≡ true
      → other_epoch d v.epoch ≡ false
  one_epoch [] v h verified = refl
  one_epoch ((k, first) ∷ d) v (here, h) verified =
      ground (arith, epoch_verified first.authority_vote here, epoch_verified v verified)

  signers-All :
      (d : Dict SignedTransferOrder)
      → AllVerify d
      → All (λ a. contains a s.committee ≡ true) (signers_of (votes_of d))
  signers-All [] h = tt
  signers-All ((k, v) ∷ d) (here, h) = (member_verified v.authority_vote here, signers-All d h)

signers_there :
    (k : String) (v : SignedTransferOrder) (d : Dict SignedTransferOrder)
    → 0 < length (signers_of (votes_of (insert k v d)))
signers_there k v [] = omega arith
signers_there k v ((j, w) ∷ d) = elim (Bool-cases (j == k)) [
  | inl same ↦ rw same (omega arith)
  | inr other ↦ rw other (omega arith)
]

module _ (rt : Runtime) (now : ℤ) (signed : SignedTransferOrder) (z : Station) (epoch : ℕ)
    (st : RegistryState) (s : WeightSnapshot) (wallet : Wallet) where
  abbrev order : TransferOrder
  order = signed.transfer_order

  abbrev id : String
  id = rt.uuid_str order.order_id

  -- The signatures that the client has for the order, with the new one under its authority's name.
  abbrev pub signatures : Dict SignedTransferOrder
  signatures = get_or (lookup id z.client.signed_transfer_orders) []

  abbrev pub with_this : Dict SignedTransferOrder
  with_this = insert signed.authority_vote.authority signed signatures

  abbrev paid_for : ConfirmationOrder
  paid_for = certificate rt now order (votes_of with_this) s

  accepted :
      IsSound rt z.client.registry epoch s
      → all_verify rt order s (votes_of with_this) ≡ true
      → has_weighted_quorum rt order (votes_of with_this) s ≡ true
      → (w : World) (a : Account) (file : RegistryFile)
      → snapshot_for_epoch rt w.node.registry (pos epoch) w.file ≡ ok (some s, file)
      → lookup order.sender w.node.accounts ≡ some a
      → can_debit a.balance order.amount ≡ true
      → leb_ℤ order.sequence_number a.sequence_number ≡ false
      → validate_confirmation rt paid_for w ≡ (ok true, record w { file = file })
  unfolding validate_confirmation certificate
  accepted sound verified quorum w a file found known covered later =
      let mine : snapshot_for_epoch rt w.node.registry (pos s.epoch) w.file ≡ ok (some s, file) =
        ap (λ n. snapshot_for_epoch rt w.node.registry (pos n) w.file) sound.of_epoch ∙ found in
      rw (validate_confirmation, known, covered, later, mine)
        (ap (λ b. (ok b, record w { file = file }))
          (certificate-is_certified rt s order now (votes_of with_this) verified quorum))

  -- Where the registry and its file are in order, a vote arrives on a pending order of a hosted
  -- account. It is of an epoch whose snapshot the file has, and verifies under it like those collected
  -- before. With it they are a quorum, the amount is positive and the account has enough. Then the
  -- client answers with a confirmation of the order that holds just these votes. Every authority that
  -- looks up the same snapshot for that epoch, and whose account of the sender allows the payment,
  -- validates it. The amount leaves the account and no other. Nothing is pending for the order and the
  -- account any more, other orders stay pending, and the file is in order and has noted the order.
  pub handle_signed_transfer-settles :
      IsRegistry z.client.registry
      → IsValid rt z.client.registry st
      → z.file ≡ some st
      → signed.authority_vote.epoch ≡ pos epoch
      → find_snapshot epoch st.snapshots ≡ some s
      → lookup id z.client.pending_transfers ≡ some order
      → IsNodup (keys z.client.pending_transfers)
      → IsNodup (keys z.client.pending_by_account)
      → lookup order.sender z.client.accounts ≡ some wallet
      → leb_ℤ order.amount (pos 0) ≡ false
      → ltb_ℤ wallet.balance order.amount ≡ false
      → verify_authority_vote rt order signed.authority_vote s ≡ true
      → AllVerify rt order s signatures
      → has_weighted_quorum rt order (collected_votes with_this) s ≡ true
      → (c : ConfirmationOrder) × (z' : Station) × (st' : RegistryState) × (handle_signed_transfer
            rt now signed z
          ≡ (ok (some c), z'))
        × (c.transfer_order ≡ order)
        × (c.authority_votes ≡ collected_votes with_this)
        × ((w : World) (a : Account) (file : RegistryFile)
            → snapshot_for_epoch rt w.node.registry (pos epoch) w.file ≡ ok (some s, file)
            → lookup order.sender w.node.accounts ≡ some a
            → can_debit a.balance order.amount ≡ true
            → leb_ℤ order.sequence_number a.sequence_number ≡ false
            → validate_confirmation rt c w ≡ (ok true, record w { file = file }))
        × ((j : String)
            → account_balance z'.client j ≡ (
                if order.sender == j
                then account_balance z.client j -ℤ order.amount
                else account_balance z.client j))
        × (lookup id z'.client.pending_transfers ≡ none)
        × (lookup order.sender z'.client.pending_by_account ≡ none)
        × ((j : String)
            → id ≢ j
            → lookup j z'.client.pending_transfers ≡ lookup j z.client.pending_transfers)
        × (z'.file ≡ some st')
        × IsValid rt z.client.registry st'
        × (contains id st'.finalized_order_ids ≡ true)
  unfolding certificate
  handle_signed_transfer-settles r v there epoch_is found waits one_each one_account owned positive
        covered verified before quorum =
      let all_ok : AllVerify rt order s with_this =
        All-insert (λ v. verify_authority_vote rt order v.authority_vote s ≡ true)
          signed.authority_vote.authority signed signatures verified before in
      let found_s : snapshot_for_epoch rt z.client.registry signed.authority_vote.epoch z.file
          ≡ ok (some s, some st) =
        rw (epoch_is, there, snapshot_for_epoch-valid rt z.client.registry epoch st r v, found)
          refl in
      let sound =
        find_snapshot-IsSound rt z.client.registry st.current_epoch epoch st.snapshots v.sound
          found in
      let enough : has_weighted_quorum rt order (votes_of with_this) s ≡ true =
        rw (votes_of_lem with_this) quorum in
      let members = rw sound.of_committee at (signers-All rt order s with_this all_ok) in
      let (s', st', recorded, records) =
        record_finalization-Records rt z.client.registry id (signers_of (votes_of with_this)) st r v
          (signers_there signed.authority_vote.authority signed signatures) members in
      let (z', run, balances, pending', accounts', file') =
        handle_signed_transfer-pays rt now signed z order s (some st) waits
          (has_key-lookup order.sender z.client.accounts owned) (ground arith) found_s verified
          wallet s' (some st')
          (one_epoch rt order s signatures signed.authority_vote before verified) enough owned
          positive covered recorded in
      (
        paid_for,
        z',
        st',
        run,
        refl,
        votes_of_lem with_this,
        accepted sound (all_verify-AllVerify rt order s with_this all_ok) enough,
        balances,
        ap (lookup id) pending' ∙ lookup-erase id z.client.pending_transfers one_each,
        ap (lookup order.sender) accounts'
            ∙ lookup-erase order.sender z.client.pending_by_account one_account,
        λ j differ. ap (lookup j) pending' ∙ lookup-erase_ne id j z.client.pending_transfers differ,
        file',
        records.valid,
        ap (contains id) records.noted ∙ noted_there id st.finalized_order_ids,
      )
