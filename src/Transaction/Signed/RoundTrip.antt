-- ===== src/Transaction/Signed/RoundTrip.antt =====
-- Decoding a signed transfer order after encoding it.
use meshpay.Base.{◌<◌, ◌≡◌, refl, ◌≢◌, Option, none, some, ℤ, pos, arith}
use meshpay.Value.{Result, ok, err, value_error, get, text}
use meshpay.Runtime.{Runtime, uuid_limit}
use meshpay.Transaction.Payload.{payload_data}
use meshpay.Transaction.Transfer.{TransferOrder}
use meshpay.Transaction.Transfer.RoundTrip.{IsStamped, stamped_lem, full_trip}
use meshpay.Transaction.Vote
use meshpay.Transaction.Signed.{
  SignedTransferOrder, OrderLookup, to_dict, to_compact_dict, from_dict, from_compact_dict,
  to_dtn_payload, to_full_dtn_payload, from_dtn_payload,
}

pub record IsStampedSigned (s : SignedTransferOrder) : Type 0 where
  pub id_fits : s.order_id < uuid_limit
  pub time_set : s.timestamp ≢ pos 0
  pub order : IsStamped s.transfer_order

-- A signed order with the order that was found, if one was.
abbrev pub with_order : SignedTransferOrder → Option TransferOrder → Result SignedTransferOrder
with_order s none = err value_error
with_order s (some o) = ok (record s { transfer_order = o })

module _ (rt : Runtime) (find_order : OrderLookup) (now : ℤ) (s : SignedTransferOrder)
    (stamp : IsStampedSigned s) where
  signed_full_trip : from_dict rt now (to_dict rt s) ≡ ok s
  unfolding from_dict to_dict
  signed_full_trip = rw (
    rt.uuid_of-str s.order_id stamp.id_fits,
    full_trip rt now s.transfer_order stamp.order,
    Vote.from-to rt s.authority_vote,
    stamped_lem now s.timestamp stamp.time_set,
  )

  compact_trip_signed :
      from_compact_dict rt find_order now (to_compact_dict rt s)
      ≡ with_order s (find_order (rt.uuid_str s.order_id))
  unfolding from_compact_dict to_compact_dict
  compact_trip_signed = ground (
    arith,
    rt.uuid_of-hex s.order_id stamp.id_fits,
    rt.uuid_of-str s.order_id stamp.id_fits,
    Vote.from_compact-to_compact rt s.authority_vote,
    stamped_lem now s.timestamp stamp.time_set,
  )

  pub signed-type : get "type" (to_dtn_payload rt s) ≡ some (text "signed_transfer_order")
  unfolding to_dtn_payload
  signed-type = refl

  -- A stamped signed order survives the full layout. From the compact layout the receiver gets it
  -- with the order that it knows under the order id, and a `ValueError` if it knows none.
  pub signed-from_dtn-to_dtn :
      (from_dtn_payload rt find_order now (to_full_dtn_payload rt s) ≡ ok s)
      × (from_dtn_payload rt find_order now (to_dtn_payload rt s)
          ≡ with_order s (find_order (rt.uuid_str s.order_id)))
  unfolding from_dtn_payload to_dtn_payload to_full_dtn_payload payload_data
  signed-from_dtn-to_dtn = (signed_full_trip, compact_trip_signed)
