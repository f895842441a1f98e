-- ===== src/Transaction/Signed.antt =====
-- `SignedTransferOrder` (meshpay/types/transaction.py) and its wire forms.
pub mod RoundTrip
use meshpay.Base.{
  ℕ, Bool, true, false, not, Option, none, some, String, ℤ, pos, if◌then◌else◌, ◌&&◌,
}
use meshpay.Value.{
  Value, null, int, real, text, obj, Fields, end, field, Result, ok, err, value_error, get,
  get_default, item, has_field, raise_if, or_raise, as_fields, ◌>>=◌, ◌>>◌,
}
use meshpay.Runtime.{Runtime, to_real, to_uuid}
use meshpay.Transaction.Payload.{
  payload_data, compact_payload, full_payload, uses_compact, is_compact_version,
}
use meshpay.Transaction.Transfer
use meshpay.Transaction.Transfer.{TransferOrder, stamped}
use meshpay.Transaction.Vote
use meshpay.Transaction.Vote.{AuthorityVote}

pub record SignedTransferOrder : Type 0 where
  pub order_id : ℕ
  pub transfer_order : TransferOrder
  pub authority_vote : AuthorityVote
  pub timestamp : ℤ

-- `OrderLookup`: no function is one that finds nothing.
abbrev pub OrderLookup : Type 0
OrderLookup = String → Option TransferOrder

module _ (rt : Runtime) where
  -- `SignedTransferOrder.to_dict`
  pub to_dict : SignedTransferOrder → Fields
  to_dict s = field "order_id" (text (rt.uuid_str s.order_id)) (
      field "transfer_order" (obj (Transfer.to_dict rt s.transfer_order)) (
        field "authority_vote" (obj (Vote.to_dict s.authority_vote))
          (field "timestamp" (real s.timestamp) end)))

  -- `SignedTransferOrder.to_compact_dict`: the order itself is left out.
  pub to_compact_dict : SignedTransferOrder → Fields
  to_compact_dict s =
      field "i" (text (rt.uuid_hex s.order_id))
        (field "v" (obj (Vote.to_compact_dict s.authority_vote)) (field "t" (real s.timestamp) end))

  -- `SignedTransferOrder.from_dict`
  pub from_dict : ℤ → Fields → Result SignedTransferOrder
  from_dict now fs = do
    order_id ← item "order_id" fs >>= to_uuid rt
    transfer_order ← item "transfer_order" fs >>= as_fields >>= Transfer.from_dict rt now
    authority_vote ← item "authority_vote" fs >>= as_fields >>= Vote.from_dict rt
    timestamp ← item "timestamp" fs >>= to_real rt
    ok (record {
      order_id = order_id;
      transfer_order = transfer_order;
      authority_vote = authority_vote;
      timestamp = stamped now timestamp;
    })

  -- `SignedTransferOrder.from_compact_dict`: the order comes from the lookup.
  pub from_compact_dict : OrderLookup → ℤ → Fields → Result SignedTransferOrder
  from_compact_dict order_lookup now fs = do
    uuid ← item "i" fs >>= to_uuid rt
    transfer_order ← or_raise (order_lookup (rt.uuid_str uuid)) value_error
    order_id ← or_raise (rt.uuid_of (rt.uuid_str uuid)) value_error
    authority_vote ← item "v" fs >>= as_fields >>= Vote.from_compact_dict rt
    timestamp ← to_real rt (get_default "t" (real (pos 0)) fs)
    ok (record {
      order_id = order_id;
      transfer_order = transfer_order;
      authority_vote = authority_vote;
      timestamp = stamped now timestamp;
    })

  pub to_dtn_payload : SignedTransferOrder → Fields
  unfolding to_compact_dict
  to_dtn_payload s = compact_payload "signed_transfer_order" (to_compact_dict s)

  pub to_full_dtn_payload : SignedTransferOrder → Fields
  unfolding to_dict
  to_full_dtn_payload s = full_payload "signed_transfer_order" (to_dict s)

  -- `SignedTransferOrder.from_dtn_payload`
  pub from_dtn_payload : OrderLookup → ℤ → Fields → Result SignedTransferOrder
  from_dtn_payload order_lookup now payload = do
    contents ← payload_data payload "signed_transfer_order"
    raise_if (has_field "i" contents && not (is_compact_version (get "v" payload))) value_error
    if uses_compact payload contents
        then from_compact_dict order_lookup now contents
        else from_dict now contents
