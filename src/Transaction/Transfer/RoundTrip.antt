-- ===== src/Transaction/Transfer/RoundTrip.antt =====
-- Decoding a transfer order after encoding it gives the order back, in both layouts.
use meshpay.Base.{
  ◌<◌, ◌≡◌, refl, ◌≢◌, Option, none, some, String, ℤ, pos, eq_ℤ, eq_ℤ_iff, arith, Bool-cases, inl,
  inr,
}
use meshpay.Value.{get, ok, text}
use meshpay.Runtime.{Runtime, uuid_limit, optional_text, as_optional_text}
use meshpay.Transaction.Payload.{payload_data}
use meshpay.Transaction.Transfer.{
  TransferOrder, stamped, to_dict, to_compact_dict, from_compact_dict, from_full_dict, from_dict,
  to_dtn_payload, to_full_dtn_payload, from_dtn_payload,
}

-- An order as `__post_init__` leaves it: its UUID is one, and its time is set.
pub record IsStamped (o : TransferOrder) : Type 0 where
  pub id_fits : o.order_id < uuid_limit
  pub time_set : o.timestamp ≢ pos 0

pub stamped_lem : (now t : ℤ) → t ≢ pos 0 → stamped now t ≡ t
stamped_lem now t h = elim (Bool-cases (eq_ℤ t (pos 0))) [
  | inl zero_time ↦ absurd (h ((eq_ℤ_iff t (pos 0)).0 zero_time))
  | inr other ↦ rw other
]

pub as_optional-optional_text : (s : Option String) → as_optional_text (optional_text s) ≡ ok s
as_optional-optional_text none = refl
as_optional-optional_text (some s) = refl

module _ (rt : Runtime) (now : ℤ) (o : TransferOrder) (stamp : IsStamped o) where
  compact_trip : from_compact_dict rt now (to_compact_dict rt o) ≡ ok o
  unfolding from_compact_dict to_compact_dict
  compact_trip = ground (
    arith,
    rt.uuid_of-hex o.order_id stamp.id_fits,
    as_optional-optional_text o.signature,
    stamped_lem now o.timestamp stamp.time_set,
  )

  pub full_trip : from_dict rt now (to_dict rt o) ≡ ok o
  unfolding from_dict to_dict from_full_dict
  full_trip = rw (
    rt.uuid_of-str o.order_id stamp.id_fits,
    as_optional-optional_text o.signature,
    stamped_lem now o.timestamp stamp.time_set,
  )

  pub transfer-type : get "type" (to_dtn_payload rt o) ≡ some (text "transfer_order")
  unfolding to_dtn_payload
  transfer-type = refl

  -- A stamped order survives the wire in the compact and in the full layout.
  pub from_dtn-to_dtn :
      (from_dtn_payload rt now (to_dtn_payload rt o) ≡ ok o)
      × (from_dtn_payload rt now (to_full_dtn_payload rt o) ≡ ok o)
  unfolding from_dtn_payload to_dtn_payload to_full_dtn_payload payload_data
  from_dtn-to_dtn = (compact_trip, full_trip)
