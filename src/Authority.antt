-- ===== src/Authority.antt =====
-- `Authority` (meshpay/offline/nodes/authority.py), handler by handler. The clock is read once per
-- handler. An account object that the code changes is stored back under its address, so the sender
-- and the recipient are one object where their addresses are equal, as in the source.
pub mod Monad
pub mod Refresh
pub mod Transfer
pub mod Balances
pub mod Apply
pub mod Verdict
pub mod Open
pub mod Outcome
pub mod Movement
pub mod Confirm
pub mod Standing
pub mod Replay
pub mod Certified
pub mod Solvent
pub mod Start
pub mod Trace
pub mod Ledger
pub mod Ordering
use meshpay.Base.{
  ℕ, Bool, true, false, not, ◌&&◌, ◌||◌, Option, none, some, String, ℤ, pos, eq_ℤ, leb_ℤ, ◌==◌,
  if◌then◌else◌, List, [], ◌∷◌, Dict, lookup, insert, has_key,
}
use meshpay.Value.{Result, ok, err}
use meshpay.Runtime.{Runtime, sign_payload, verify_signature}
use meshpay.Transaction.Status.{TransactionStatus}
use meshpay.Transaction.Transfer.{TransferOrder, signing_dict}
use meshpay.Transaction.Vote.{AuthorityVote}
use meshpay.Transaction.Signed.{SignedTransferOrder}
use meshpay.Transaction.Confirmation.{ConfirmationOrder}
use meshpay.Adapter.{PaymentObject, transfer_order, signed_transfer_order, confirmation_order}
use meshpay.Quorum.{
  WeightSnapshot, weight_for, authority_vote_signing_dict, verify_authority_vote,
  has_weighted_quorum,
}
use meshpay.Registry.{initialize, snapshot_for_epoch, authority_stats}
use meshpay.Wallet.{can_debit}
use meshpay.Account.{Account, debit, credit, set_sequence, new_account}
use Monad.{
  Authority, World, M, pure, from_result, gets, with_registry, ◌>>=◌, ◌>>◌, modify, account_at,
  store_account,
}

-- `register_account`
unfoldable pub register_account : ℤ → String → ℤ → M (Unit {0})
register_account now address balance = store_account address (new_account now address balance)

-- `_get_or_create_account`, on the state.
unfoldable pub get_or_create_account : ℤ → String → M (Unit {0})
unfolding register_account
get_or_create_account now address w = elim (lookup address w.node.accounts) [
  | some _ ↦ (ok tt, w)
  | none ↦ register_account now address (pos 0) w
]

-- `balance_of`
unfoldable pub balance_of : Authority → String → ℤ
balance_of n address = elim (lookup address n.accounts) [ none ↦ pos 0 | some a ↦ a.balance ]

module _ (rt : Runtime) where
  -- `str(a.order_id) == str(b.order_id)`
  abbrev pub same_order : TransferOrder → TransferOrder → Bool
  same_order a b = rt.uuid_str a.order_id == rt.uuid_str b.order_id

  -- `_validate_transfer`, once the sender's account has been looked up.
  unfoldable pub account_allows : TransferOrder → Account → Bool
  account_allows order a =
      if not (can_debit a.balance order.amount)
      then false
      else if leb_ℤ order.sequence_number a.sequence_number
      then false
      else elim a.pending_confirmation [
        | none ↦ true
        | some existing ↦ same_order existing.transfer_order order
      ]

  -- `_validate_transfer`
  unfoldable pub validate_transfer : TransferOrder → Authority → Bool
  validate_transfer order n =
      if leb_ℤ order.amount (pos 0)
      then false
      else if order.sender == order.recipient
      then false
      else if not (verify_signature rt order.sender (signing_dict rt order) order.signature)
      then false
      else elim (lookup order.sender n.accounts) [ none ↦ false | some a ↦ account_allows order a ]

  -- `_refresh_weight_state`
  unfoldable pub refresh_weight_state : M (Unit {0})
  refresh_weight_state = do
    name ← gets (λ n. n.name)
    (tx_count, weight) ← with_registry (λ reg. authority_stats rt reg name)
    modify (λ n. record n { tx_count = tx_count; current_weight = weight })

  -- The signed order that `handle_transfer` builds.
  unfoldable pub sign_order : ℤ → String → TransferOrder → WeightSnapshot → SignedTransferOrder
  sign_order now name order s =
      let weight = pos (weight_for s name) in
      record {
        order_id = order.order_id;
        transfer_order = order;
        authority_vote = record {
          authority = name;
          signature = sign_payload rt name (
              authority_vote_signing_dict rt order name (pos s.epoch) weight
                (pos s.total_weight_units) s.committee_digest);
          epoch = pos s.epoch;
          weight_units = weight;
          total_weight_units = pos s.total_weight_units;
          committee_digest = s.committee_digest;
        };
        timestamp = now;
      }

  -- The part of `handle_transfer` for an account with nothing pending.
  unfoldable pub sign_new : ℤ → TransferOrder → Account → M (Option SignedTransferOrder)
  sign_new now order a = do
    refresh_weight_state
    s ← with_registry (initialize rt)
    name ← gets (λ n. n.name)
    let signed = sign_order now name order s
    store_account order.sender (record a { pending_confirmation = some signed; last_update = now })
    pure (some signed)

  -- `handle_transfer`
  unfoldable pub handle_transfer : ℤ → TransferOrder → M (Option SignedTransferOrder)
  handle_transfer now order = do
    valid ← gets (validate_transfer order)
    if not valid then pure none else do
      a ← account_at order.sender
      elim a.pending_confirmation [
        | none ↦ sign_new now order a
        | some existing ↦
            pure (if same_order existing.transfer_order order then some existing else none)
      ]

  -- `for vote in votes: if not verify_authority_vote(...)`
  unfoldable pub all_verify : TransferOrder → WeightSnapshot → List AuthorityVote → Bool
  all_verify order s [] = true
  all_verify order s (v ∷ votes) = verify_authority_vote rt order v s && all_verify order s votes

  abbrev pub no_votes : List AuthorityVote → Bool
  no_votes [] = true
  no_votes (_ ∷ _) = false

  -- The tests of a confirmation against the snapshot of its epoch, which clients make too.
  unfoldable pub is_certified : ConfirmationOrder → Option WeightSnapshot → Bool
  unfolding all_verify
  is_certified c none = false
  is_certified c (some s) =
      if not (eq_ℤ c.total_weight_units (pos s.total_weight_units))
        || not (c.committee_digest == s.committee_digest)
        || no_votes c.authority_votes
      then false
      else if not (all_verify c.transfer_order s c.authority_votes)
      then false
      else has_weighted_quorum rt c.transfer_order c.authority_votes s

  -- `_validate_confirmation`
  unfoldable pub validate_confirmation : ConfirmationOrder → M Bool
  unfolding is_certified
  validate_confirmation c w =
      let order = c.transfer_order in
      elim (lookup order.sender w.node.accounts) [
        | none ↦ (ok false, w)
        | some a ↦
            if not (can_debit a.balance order.amount)
            then (ok false, w)
            else if leb_ℤ order.sequence_number a.sequence_number
            then (ok false, w)
            else (with_registry (λ reg. snapshot_for_epoch rt reg c.quorum_epoch) >>= λ found.
                  pure (is_certified c found))
                w
      ]

  -- What `handle_confirmation` does to the sender's account after the debit.
  unfoldable pub settle_sender : ℤ → ConfirmationOrder → Account → Account
  settle_sender now c a =
      let order = c.transfer_order in
      record (set_sequence now a order.sequence_number) {
        pending_confirmation = none;
        confirmed_transfers = insert (rt.uuid_str order.order_id) c a.confirmed_transfers;
        last_update = now;
      }

  -- `confirmation.status = CONFIRMED`, in the object that the sender's account holds.
  unfoldable pub mark_confirmed : ConfirmationOrder → Account → Account
  mark_confirmed c a = record a {
    confirmed_transfers =
        insert (rt.uuid_str c.transfer_order.order_id)
          (record c { status = TransactionStatus.confirmed }) a.confirmed_transfers;
  }

  -- The part of `handle_confirmation` after the tests.
  unfoldable pub apply_confirmation : ℤ → ConfirmationOrder → M Bool
  apply_confirmation now c = do
    let order = c.transfer_order
    a ← account_at order.sender
    debited ← from_result (debit now a order.amount)
    store_account order.sender (settle_sender now c debited)
    b ← account_at order.recipient
    credited ← from_result (credit now b order.amount)
    store_account order.recipient credited
    settled ← account_at order.sender
    store_account order.sender (mark_confirmed c settled)
    refresh_weight_state
    pure true

  -- `handle_confirmation`
  unfoldable pub handle_confirmation : ℤ → ConfirmationOrder → M Bool
  handle_confirmation now c = do
    let order = c.transfer_order
    valid ← validate_confirmation c
    if not valid then pure false else do
      get_or_create_account now order.recipient
      a ← account_at order.sender
      if has_key (rt.uuid_str order.order_id) a.confirmed_transfers
          then pure false
          else apply_confirmation now c

  -- `on_payment_object`
  unfoldable pub on_payment_object : ℤ → PaymentObject → M (List PaymentObject)
  on_payment_object now (transfer_order order) = do
    signed ← handle_transfer now order
    pure (elim signed [ none ↦ [] | some s ↦ signed_transfer_order s ∷ [] ])
  on_payment_object now (confirmation_order c) = do handle_confirmation now c; pure []
  on_payment_object now (signed_transfer_order s) = pure []
