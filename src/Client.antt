-- ===== src/Client.antt =====
-- `Client` (meshpay/offline/nodes/client.py), method by method. The clock is read once per method,
-- and the id that `uuid4` returns is an argument.
pub mod Accounts
pub mod Hosting
pub mod Monad
pub mod Pay
pub mod Certificate
pub mod Receive
pub mod Collect
pub mod Settle
use mathlib.Core.Option.{get_or}
use meshpay.Base.{
  ℕ, Bool, true, false, not, ◌&&◌, ◌||◌, Option, none, some, String, ℤ, pos, ◌+ℤ◌, eq_ℤ, leb_ℤ,
  ltb_ℤ, ◌==◌, if◌then◌else◌, List, [], ◌∷◌, Dict, lookup, insert, erase, has_key, map,
}
use meshpay.Value.{Result, ok, err, value_error, runtime_error, key_error, or_raise}
use meshpay.Runtime.{Runtime, sign_payload}
use meshpay.Transaction.Status.{TransactionStatus}
use meshpay.Transaction.Transfer.{TransferOrder, signing_dict, stamped, default_ttl}
use meshpay.Transaction.Vote.{AuthorityVote}
use meshpay.Transaction.Signed.{SignedTransferOrder}
use meshpay.Transaction.Confirmation.{ConfirmationOrder}
use meshpay.Adapter.{PaymentObject, transfer_order, signed_transfer_order, confirmation_order}
use meshpay.Quorum.{WeightSnapshot, verify_authority_vote, has_weighted_quorum}
use meshpay.Registry.{snapshot_for_epoch, record_finalization}
use meshpay.Wallet.{Wallet, next_sequence, debit, credit}
use meshpay.Authority.{is_certified}
use Monad.{Client, Station, C, answer, fail, ◌>>=◌, ◌>>◌, asks, change, on_registry, lift}

-- `sender_account or self.name`
abbrev pub sender_or : String → Option String → String
sender_or name none = name
sender_or name (some account) = if account == "" then name else account

-- `[item.authority_vote for item in signatures_for_order.values()]`
abbrev pub votes_of : Dict SignedTransferOrder → List AuthorityVote
votes_of [] = []
votes_of ((_, signed) ∷ rest) = signed.authority_vote ∷ votes_of rest

-- The epochs differ from that of the first signed order, if there is one.
abbrev pub other_epoch : Dict SignedTransferOrder → ℤ → Bool
other_epoch [] epoch = false
other_epoch ((_, first) ∷ _) epoch = not (eq_ℤ first.authority_vote.epoch epoch)

-- `[str(vote.authority) for vote in votes]`
abbrev pub signers_of : List AuthorityVote → List String
signers_of votes = map (λ v. v.authority) votes

-- `account_balance`
unfoldable pub account_balance : Client → String → ℤ
account_balance c account_id = elim (lookup account_id c.accounts) [
  | none ↦ pos 0
  | some w ↦ w.balance
]

-- `balance`
unfoldable pub balance : Client → ℤ
balance c = go c.accounts
  where
    go : Dict Wallet → ℤ
    go [] = pos 0
    go ((_, w) ∷ rest) = w.balance +ℤ go rest

-- `can_pay_from`
unfoldable pub can_pay_from : Client → String → ℤ → Bool
can_pay_from c account_id amount = elim (lookup account_id c.accounts) [
  | none ↦ false
  | some w ↦ if has_key account_id c.pending_by_account then false else leb_ℤ amount w.balance
]

abbrev pub store_wallet : String → Wallet → C (Unit {0})
store_wallet account w = change (λ c. record c { accounts = insert account w c.accounts })

-- `self.accounts[account]`
abbrev pub wallet_at : String → C Wallet
wallet_at account =
    asks (λ c. c.accounts) >>= λ accounts. lift (or_raise (lookup account accounts) key_error)

module _ (rt : Runtime) where
  abbrev pub order_key : TransferOrder → String
  order_key order = rt.uuid_str order.order_id

  -- The order that `pay` makes, before it is signed and after.
  unfoldable pub unsigned_order : ℤ → ℕ → String → String → ℤ → ℤ → TransferOrder
  unsigned_order now id sender recipient amount sequence = record {
    order_id = id;
    sender = sender;
    recipient = recipient;
    amount = amount;
    sequence_number = sequence;
    timestamp = stamped now now;
    signature = none;
    epoch = pos 0;
    ttl = default_ttl;
  }

  unfoldable pub signed_by_sender : TransferOrder → TransferOrder
  signed_by_sender order = record order {
    signature = some (sign_payload rt order.sender (signing_dict rt order));
  }

  -- The part of `pay` after the tests.
  unfoldable pub issue : ℤ → ℕ → String → String → ℤ → Wallet → C TransferOrder
  issue now id sender recipient amount wallet = do
    let (wallet', sequence) = next_sequence wallet
    store_wallet sender wallet'
    let order = signed_by_sender (unsigned_order now id sender recipient amount sequence)
    change λ c. record c {
      pending_by_account = insert sender (order_key order) c.pending_by_account;
      pending_transfers = insert (order_key order) order c.pending_transfers;
      signed_transfer_orders = insert (order_key order) [] c.signed_transfer_orders;
    }
    answer order

  -- `pay`
  unfoldable pub pay : ℤ → ℕ → String → ℤ → Option String → C TransferOrder
  pay now id recipient amount account z =
      let sender = sender_or z.client.name account in
      elim (lookup sender z.client.accounts) [
        | none ↦ (err value_error, z)
        | some wallet ↦
            if leb_ℤ amount (pos 0)
            then (err value_error, z)
            else if has_key sender z.client.pending_by_account
            then (err runtime_error, z)
            else if ltb_ℤ wallet.balance amount
            then (err value_error, z)
            else issue now id sender recipient amount wallet z
      ]

  -- The confirmation that `handle_signed_transfer` builds.
  unfoldable pub certificate :
      ℤ → TransferOrder → List AuthorityVote → WeightSnapshot → ConfirmationOrder
  certificate now pending votes s = record {
    order_id = pending.order_id;
    transfer_order = pending;
    authority_votes = votes;
    timestamp = stamped now now;
    quorum_epoch = pos s.epoch;
    total_weight_units = pos s.total_weight_units;
    committee_digest = s.committee_digest;
    status = TransactionStatus.confirmed;
  }

  -- The part of `handle_signed_transfer` after the quorum.
  unfoldable pub finish :
      ℤ
      → String
      → TransferOrder
      → List AuthorityVote
      → WeightSnapshot
      → C (Option ConfirmationOrder)
  finish now order_id pending votes s = do
    let confirmation = certificate now pending votes s
    wallet ← wallet_at pending.sender
    wallet' ← lift (debit wallet pending.amount)
    store_wallet pending.sender wallet'
    change
        λ c. record c { confirmation_orders = insert order_id confirmation c.confirmation_orders }
    on_registry (λ reg. record_finalization rt reg order_id (signers_of votes))
    change λ c. record c {
      pending_transfers = erase order_id c.pending_transfers;
      signed_transfer_orders = erase order_id c.signed_transfer_orders;
      pending_by_account = erase pending.sender c.pending_by_account;
    }
    answer (some confirmation)

  -- The part of `handle_signed_transfer` that stores the vote and tries for a quorum.
  unfoldable pub collect :
      ℤ
      → SignedTransferOrder
      → TransferOrder
      → Dict SignedTransferOrder
      → WeightSnapshot
      → C (Option ConfirmationOrder)
  collect now signed pending signatures s = do
    let order_id = order_key signed.transfer_order
    let signatures' = insert signed.authority_vote.authority signed signatures
    change λ c. record c {
      signed_transfer_orders = insert order_id signatures' c.signed_transfer_orders;
    }
    let votes = votes_of signatures'
    if not (has_weighted_quorum rt pending votes s)
        then answer none
        else finish now order_id pending votes s

  -- The part of `handle_signed_transfer` for an order that is pending.
  unfoldable pub check_vote : ℤ → SignedTransferOrder → TransferOrder → C (Option ConfirmationOrder)
  check_vote now signed pending = do
    let order_id = order_key signed.transfer_order
    known ← asks (λ c. lookup order_id c.signed_transfer_orders)
    let signatures = get_or known []
    change λ c. record c {
      signed_transfer_orders = insert order_id signatures c.signed_transfer_orders;
    }
    found ← on_registry (λ reg. snapshot_for_epoch rt reg signed.authority_vote.epoch)
    elim found [
      | none ↦ answer none
      | some s ↦
          if not (verify_authority_vote rt signed.transfer_order signed.authority_vote s)
          then answer none
          else if other_epoch signatures signed.authority_vote.epoch
          then answer none
          else collect now signed pending signatures s
    ]

  -- `handle_signed_transfer`
  unfoldable pub handle_signed_transfer : ℤ → SignedTransferOrder → C (Option ConfirmationOrder)
  handle_signed_transfer now signed z =
      let order = signed.transfer_order in
      elim (lookup (order_key order) z.client.pending_transfers) [
        | none ↦ (ok none, z)
        | some pending ↦
            if not (has_key order.sender z.client.accounts)
              || not (eq_ℤ order.sequence_number pending.sequence_number)
            then (ok none, z)
            else check_vote now signed pending z
      ]

  -- The part of `handle_confirmation` after the tests.
  unfoldable pub accept : ConfirmationOrder → C Bool
  accept c = do
    let order = c.transfer_order
    wallet ← wallet_at order.recipient
    wallet' ← lift (credit wallet order.amount)
    store_wallet order.recipient wallet'
    change λ k. record k { confirmation_orders = insert (order_key order) c k.confirmation_orders }
    answer true

  -- `handle_confirmation`
  unfoldable pub handle_confirmation : ConfirmationOrder → C Bool
  handle_confirmation c z =
      let order = c.transfer_order in
      if not (has_key order.recipient z.client.accounts)
        || has_key (order_key order) z.client.confirmation_orders
      then (ok false, z)
      else (on_registry (λ reg. snapshot_for_epoch rt reg c.quorum_epoch) >>= λ found.
            if is_certified rt c found then accept c else answer false)
          z

  -- `on_payment_object`
  unfoldable pub on_payment_object : ℤ → PaymentObject → C (List PaymentObject)
  on_payment_object now (signed_transfer_order signed) = do
    confirmation ← handle_signed_transfer now signed
    answer (elim confirmation [ none ↦ [] | some c ↦ confirmation_order c ∷ [] ])
  on_payment_object now (confirmation_order c) = do handle_confirmation c; answer []
  on_payment_object now (transfer_order order) = answer []
