-- ===== src/Adapter.antt =====
-- `DTNAdapter` (meshpay/offline/dtn_adapter.py): payment objects in and out of payloads.
pub mod RoundTrip
use meshpay.Base.{◌≡◌, Option, String, ℤ, Bool, if◌then◌else◌}
use meshpay.Value.{Fields, Result, ok, err, value_error, get, map_ok}
use meshpay.Runtime.{Runtime}
use meshpay.Transaction.Payload.{text_equals}
use meshpay.Transaction.Transfer
use meshpay.Transaction.Transfer.{TransferOrder}
use meshpay.Transaction.Signed
use meshpay.Transaction.Signed.{SignedTransferOrder, OrderLookup}
use meshpay.Transaction.Confirmation
use meshpay.Transaction.Confirmation.{ConfirmationOrder}

-- `PaymentObject`
pub data PaymentObject : Type 0 where
  transfer_order : TransferOrder → PaymentObject
  signed_transfer_order : SignedTransferOrder → PaymentObject
  confirmation_order : ConfirmationOrder → PaymentObject

module _ (rt : Runtime) where
  -- `DTNAdapter.to_payload`
  pub to_payload : PaymentObject → Fields
  to_payload (transfer_order o) = Transfer.to_dtn_payload rt o
  to_payload (signed_transfer_order s) = Signed.to_dtn_payload rt s
  to_payload (confirmation_order c) = Confirmation.to_dtn_payload rt c

  -- `DTNAdapter.from_payload`
  pub from_payload : OrderLookup → ℤ → Fields → Result PaymentObject
  from_payload order_lookup now payload =
      if text_equals "transfer_order" (get "type" payload)
      then map_ok transfer_order (Transfer.from_dtn_payload rt now payload)
      else if text_equals "signed_transfer_order" (get "type" payload)
      then map_ok signed_transfer_order (Signed.from_dtn_payload rt order_lookup now payload)
      else if text_equals "confirmation_order" (get "type" payload)
      then map_ok confirmation_order (Confirmation.from_dtn_payload rt order_lookup now payload)
      else err value_error
