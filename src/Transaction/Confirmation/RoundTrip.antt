-- ===== src/Transaction/Confirmation/RoundTrip.antt =====
-- Decoding a confirmation after encoding it.
use meshpay.Base.{
  true, ◌<◌, ◌≡◌, refl, ◌≢◌, Option, none, some, ℤ, pos, arith, Option-cases, inl, inr,
}
use meshpay.Value.{get, text, has_field, ok}
use meshpay.Runtime.{Runtime, uuid_limit}
use meshpay.Transaction.Payload.{payload_data}
use meshpay.Transaction.Status.{TransactionStatus, status_of-value}
use meshpay.Transaction.Transfer.{TransferOrder, default_ttl}
use meshpay.Transaction.Transfer.RoundTrip.{
  IsStamped, stamped_lem, full_trip, as_optional-optional_text,
}
use meshpay.Transaction.Vote
use meshpay.Transaction.Vote.{decode-encode_votes}
use meshpay.Transaction.Signed.{OrderLookup}
use meshpay.Transaction.Confirmation.{
  ConfirmationOrder, to_dict, to_compact_dict, from_dict, from_full_dict, from_compact_dict,
  order_from_compact, known_or, to_dtn_payload, to_full_dtn_payload, from_dtn_payload,
}

pub record IsStampedConfirmation (c : ConfirmationOrder) : Type 0 where
  pub id_fits : c.order_id < uuid_limit
  pub time_set : c.timestamp ≢ pos 0
  pub order : IsStamped c.transfer_order

-- What a receiver makes of the order: its own copy, or the fields on the wire, whose time to live
-- is the default.
abbrev pub received_order : ConfirmationOrder → Option TransferOrder → TransferOrder
received_order c (some known) = known
received_order c none = record c.transfer_order { order_id = c.order_id; ttl = default_ttl }

abbrev pub received : ConfirmationOrder → Option TransferOrder → ConfirmationOrder
received c found = record c {
  transfer_order = received_order c found;
  status = TransactionStatus.confirmed;
}

module _ (rt : Runtime) (find_order : OrderLookup) (now : ℤ) (c : ConfirmationOrder)
    (stamp : IsStampedConfirmation c) where
  confirmation_full_trip : from_dict rt now (to_dict rt c) ≡ ok c
  unfolding from_dict to_dict from_full_dict
  confirmation_full_trip = rw (
    rt.uuid_of-str c.order_id stamp.id_fits,
    full_trip rt now c.transfer_order stamp.order,
    decode-encode_votes Vote.to_dict (Vote.from_dict rt) (Vote.from-to rt) c.authority_votes,
    status_of-value c.status,
    stamped_lem now c.timestamp stamp.time_set,
  )

  confirmation_compact_trip :
      from_compact_dict rt find_order now (to_compact_dict rt c)
      ≡ ok (received c (find_order (rt.uuid_str c.order_id)))
  unfolding from_compact_dict to_compact_dict order_from_compact known_or
  confirmation_compact_trip = elim (Option-cases (find_order (rt.uuid_str c.order_id))) [
    | inl unknown ↦ ground (
      arith,
      unknown,
      rt.uuid_of-hex c.order_id stamp.id_fits,
      rt.uuid_of-str c.order_id stamp.id_fits,
      as_optional-optional_text c.transfer_order.signature,
      decode-encode_votes Vote.to_compact_dict (Vote.from_compact_dict rt)
          (Vote.from_compact-to_compact rt) c.authority_votes,
      stamped_lem now c.timestamp stamp.time_set,
      stamped_lem now c.transfer_order.timestamp stamp.order.time_set,
    )
    | inr (order, known) ↦ ground (
      arith,
      known,
      rt.uuid_of-hex c.order_id stamp.id_fits,
      rt.uuid_of-str c.order_id stamp.id_fits,
      decode-encode_votes Vote.to_compact_dict (Vote.from_compact_dict rt)
          (Vote.from_compact-to_compact rt) c.authority_votes,
      stamped_lem now c.timestamp stamp.time_set,
    )
  ]

  has_id : has_field "i" (to_compact_dict rt c) ≡ true
  unfolding to_compact_dict
  has_id = ground arith

  pub confirmation-type : get "type" (to_dtn_payload rt c) ≡ some (text "confirmation_order")
  unfolding to_dtn_payload
  confirmation-type = refl

  -- A stamped confirmation survives the full layout. From the compact layout the receiver gets its
  -- votes, totals and times; the order is the receiver's own copy, or the sent fields with the
  -- confirmation's id and the default time to live; the status is always confirmed.
  pub confirmation-from_dtn-to_dtn :
      (from_dtn_payload rt find_order now (to_full_dtn_payload rt c) ≡ ok c)
      × (from_dtn_payload rt find_order now (to_dtn_payload rt c)
          ≡ ok (received c (find_order (rt.uuid_str c.order_id))))
  unfolding from_dtn_payload to_dtn_payload to_full_dtn_payload payload_data
  confirmation-from_dtn-to_dtn = (confirmation_full_trip, rw has_id confirmation_compact_trip)
