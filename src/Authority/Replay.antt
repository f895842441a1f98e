-- ===== src/Authority/Replay.antt =====
-- A confirmation with a sequence number that is not above the account's.
use meshpay.Base.{◌≡◌, true, false, some, lookup, ℤ, leb_ℤ, Bool-cases, inl, inr}
use meshpay.Value.{ok}
use meshpay.Runtime.{Runtime}
use meshpay.Transaction.Confirmation.{ConfirmationOrder}
use meshpay.Account.{Account}
use meshpay.Authority.{validate_confirmation, handle_confirmation}
use meshpay.Authority.Monad.{World}
use meshpay.Wallet.{can_debit}

module _ (rt : Runtime) (now : ℤ) (c : ConfirmationOrder) (w : World) where
  stale_invalid :
      (a : Account)
      → lookup c.transfer_order.sender w.node.accounts ≡ some a
      → leb_ℤ c.transfer_order.sequence_number a.sequence_number ≡ true
      → validate_confirmation rt c w ≡ (ok false, w)
  unfolding validate_confirmation
  stale_invalid a known stale = elim (Bool-cases (can_debit a.balance c.transfer_order.amount)) [
    | inl covered ↦ rw (validate_confirmation, known, covered, stale)
    | inr short ↦ rw (validate_confirmation, known, short)
  ]

  -- A confirmation whose sequence number is not above the account's changes nothing.
  pub stale_refused :
      (a : Account)
      → lookup c.transfer_order.sender w.node.accounts ≡ some a
      → leb_ℤ c.transfer_order.sequence_number a.sequence_number ≡ true
      → handle_confirmation rt now c w ≡ (ok false, w)
  unfolding handle_confirmation
  stale_refused a known stale = rw (handle_confirmation, stale_invalid a known stale)
