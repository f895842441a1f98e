-- ===== src/Adapter/RoundTrip.antt =====
-- A payment object that goes through the adapter twice.
use meshpay.Base.{◌≡◌, ℤ}
use meshpay.Value.{Result, ok, map_ok}
use meshpay.Runtime.{Runtime}
use meshpay.Transaction.Transfer.RoundTrip.{IsStamped, transfer-type, from_dtn-to_dtn}
use meshpay.Transaction.Signed.{OrderLookup}
use meshpay.Transaction.Signed.RoundTrip.{
  IsStampedSigned, with_order, signed-type, signed-from_dtn-to_dtn,
}
use meshpay.Transaction.Confirmation.RoundTrip.{
  IsStampedConfirmation, received, confirmation-type, confirmation-from_dtn-to_dtn,
}
use meshpay.Adapter.{
  PaymentObject, transfer_order, signed_transfer_order, confirmation_order, to_payload,
  from_payload,
}

abbrev pub IsStampedObject : PaymentObject → Type 0
IsStampedObject (transfer_order o) = IsStamped o
IsStampedObject (signed_transfer_order s) = IsStampedSigned s
IsStampedObject (confirmation_order c) = IsStampedConfirmation c

module _ (rt : Runtime) (find_order : OrderLookup) (now : ℤ) where
  -- What the other side decodes.
  abbrev pub arrives : PaymentObject → Result PaymentObject
  arrives (transfer_order o) = ok (transfer_order o)
  arrives (signed_transfer_order s) =
      map_ok signed_transfer_order (with_order s (find_order (rt.uuid_str s.order_id)))
  arrives (confirmation_order c) =
      ok (confirmation_order (received c (find_order (rt.uuid_str c.order_id))))

  -- A stamped payment object that is sent by the adapter arrives as the same kind of object: a
  -- transfer order unchanged, a signed order with the receiver's copy of the order or a `ValueError`
  -- where the receiver has none, a confirmation with status confirmed and the receiver's copy of the
  -- order or its sent fields with the default time to live.
  pub from_payload-to_payload :
      (obj : PaymentObject)
      → IsStampedObject obj
      → from_payload rt find_order now (to_payload rt obj) ≡ arrives obj
  unfolding from_payload to_payload
  from_payload-to_payload (transfer_order o) st =
      rw (transfer-type rt now o st, (from_dtn-to_dtn rt now o st).0)
  from_payload-to_payload (signed_transfer_order s) st =
      rw (signed-type rt find_order now s st, (signed-from_dtn-to_dtn rt find_order now s st).1)
  from_payload-to_payload (confirmation_order c) st = rw (
    confirmation-type rt find_order now c st,
    (confirmation-from_dtn-to_dtn rt find_order now c st).1,
  )
