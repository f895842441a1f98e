-- ===== src/Transaction/Confirmation.antt =====
-- `ConfirmationOrder` (meshpay/types/transaction.py) and its wire forms.
pub mod RoundTrip
use meshpay.Base.{
  ℕ, Bool, true, false, not, Option, none, some, String, ℤ, pos, eq_ℤ, if◌then◌else◌, ◌&&◌, List,
}
use meshpay.Value.{
  Value, null, int, real, text, obj, arr, nil, Fields, end, field, Result, ok, err, value_error,
  get, get_default, item, has_field, raise_if, or_raise, put, as_fields, as_items, ◌>>=◌, ◌>>◌,
}
use meshpay.Runtime.{
  Runtime, to_int, to_real, to_uuid, to_str, as_text, as_optional_text, optional_text,
}
use meshpay.Transaction.Payload.{
  payload_data, compact_payload, full_payload, uses_compact, is_compact_version,
}
use meshpay.Transaction.Status.{TransactionStatus, status_value, status_or}
use meshpay.Transaction.Transfer
use meshpay.Transaction.Transfer.{TransferOrder, stamped, default_ttl}
use meshpay.Transaction.Vote
use meshpay.Transaction.Vote.{AuthorityVote, encode_votes, decode_votes}
use meshpay.Transaction.Signed.{OrderLookup}

pub record ConfirmationOrder : Type 0 where
  pub order_id : ℕ
  pub transfer_order : TransferOrder
  pub authority_votes : List AuthorityVote
  pub timestamp : ℤ
  pub quorum_epoch : ℤ
  pub total_weight_units : ℤ
  pub committee_digest : String
  pub status : TransactionStatus

module _ (rt : Runtime) where
  -- `ConfirmationOrder.to_dict`
  pub to_dict : ConfirmationOrder → Fields
  to_dict c = field "order_id" (text (rt.uuid_str c.order_id)) (
      field "transfer_order" (obj (Transfer.to_dict rt c.transfer_order)) (
        field "authority_votes" (arr (encode_votes Vote.to_dict c.authority_votes)) (
          field "timestamp" (real c.timestamp) (
            field "quorum_epoch" (int c.quorum_epoch) (
              field "total_weight_units" (int c.total_weight_units) (
                field "committee_digest" (text c.committee_digest)
                  (field "status" (text (status_value c.status)) end)))))))

  abbrev compact_base : ConfirmationOrder → TransferOrder → Fields
  compact_base c order = field "i" (text (rt.uuid_hex c.order_id)) (
      field "s" (text order.sender) (
        field "r" (text order.recipient) (
          field "a" (int order.amount) (
            field "q" (int order.sequence_number) (
              field "g" (optional_text order.signature) (
                field "ot" (real order.timestamp) (
                  field "x" (arr (encode_votes Vote.to_compact_dict c.authority_votes)) (
                    field "h" (int c.quorum_epoch) (
                      field "n" (int c.total_weight_units) (
                        field "c" (text c.committee_digest)
                          (field "t" (real c.timestamp) end)))))))))))

  -- `ConfirmationOrder.to_compact_dict`: neither the order's time to live nor the status is written.
  pub to_compact_dict : ConfirmationOrder → Fields
  to_compact_dict c =
      let order = c.transfer_order in
      let base = compact_base c order in
      if eq_ℤ order.epoch (pos 0) then base else put "e" (int order.epoch) base

  -- The order that `from_compact_dict` builds where the lookup finds none.
  order_from_compact : ℤ → ℕ → Fields → Result TransferOrder
  order_from_compact now order_id fs = do
    sender ← item "s" fs >>= as_text
    recipient ← item "r" fs >>= as_text
    amount ← item "a" fs >>= to_int rt
    sequence_number ← item "q" fs >>= to_int rt
    timestamp ← to_real rt (get_default "ot" (real (pos 0)) fs)
    signature ← as_optional_text (get_default "g" null fs)
    epoch ← to_int rt (get_default "e" (int (pos 0)) fs)
    ok (record {
      order_id = order_id;
      sender = sender;
      recipient = recipient;
      amount = amount;
      sequence_number = sequence_number;
      timestamp = stamped now timestamp;
      signature = signature;
      epoch = epoch;
      ttl = default_ttl;
    })

  known_or : Option TransferOrder → Result TransferOrder → Result TransferOrder
  known_or (some order) built = ok order
  known_or none built = built

  -- `ConfirmationOrder.from_compact_dict`
  pub from_compact_dict : OrderLookup → ℤ → Fields → Result ConfirmationOrder
  unfolding order_from_compact known_or
  from_compact_dict order_lookup now fs = do
    uuid ← item "i" fs >>= to_uuid rt
    order_id ← or_raise (rt.uuid_of (rt.uuid_str uuid)) value_error
    transfer_order ← known_or (order_lookup (rt.uuid_str uuid)) (order_from_compact now order_id fs)
    authority_votes ←
        as_items (get_default "x" (arr nil) fs) >>= decode_votes (Vote.from_compact_dict rt)
    timestamp ← to_real rt (get_default "t" (real (pos 0)) fs)
    quorum_epoch ← item "h" fs >>= to_int rt
    total_weight_units ← item "n" fs >>= to_int rt
    committee_digest ← item "c" fs
    status ← status_or TransactionStatus.confirmed (get "z" fs)
    ok (record {
      order_id = order_id;
      transfer_order = transfer_order;
      authority_votes = authority_votes;
      timestamp = stamped now timestamp;
      quorum_epoch = quorum_epoch;
      total_weight_units = total_weight_units;
      committee_digest = to_str rt committee_digest;
      status = status;
    })

  from_full_dict : ℤ → Fields → Result ConfirmationOrder
  from_full_dict now fs = do
    order_id ← item "order_id" fs >>= to_uuid rt
    transfer_order ← item "transfer_order" fs >>= as_fields >>= Transfer.from_dict rt now
    authority_votes ←
        as_items (get_default "authority_votes" (arr nil) fs) >>= decode_votes (Vote.from_dict rt)
    timestamp ← item "timestamp" fs >>= to_real rt
    quorum_epoch ← item "quorum_epoch" fs >>= to_int rt
    total_weight_units ← item "total_weight_units" fs >>= to_int rt
    committee_digest ← item "committee_digest" fs
    status ← status_or TransactionStatus.pending (get "status" fs)
    ok (record {
      order_id = order_id;
      transfer_order = transfer_order;
      authority_votes = authority_votes;
      timestamp = stamped now timestamp;
      quorum_epoch = quorum_epoch;
      total_weight_units = total_weight_units;
      committee_digest = to_str rt committee_digest;
      status = status;
    })

  no_orders : OrderLookup
  no_orders _ = none

  -- `ConfirmationOrder.from_dict`
  pub from_dict : ℤ → Fields → Result ConfirmationOrder
  unfolding from_full_dict no_orders
  from_dict now fs =
      if not (has_field "order_id" fs) && has_field "i" fs
      then from_compact_dict no_orders now fs
      else from_full_dict now fs

  pub to_dtn_payload : ConfirmationOrder → Fields
  unfolding to_compact_dict
  to_dtn_payload c = compact_payload "confirmation_order" (to_compact_dict c)

  pub to_full_dtn_payload : ConfirmationOrder → Fields
  unfolding to_dict
  to_full_dtn_payload c = full_payload "confirmation_order" (to_dict c)

  -- `ConfirmationOrder.from_dtn_payload`
  pub from_dtn_payload : OrderLookup → ℤ → Fields → Result ConfirmationOrder
  from_dtn_payload order_lookup now payload = do
    contents ← payload_data payload "confirmation_order"
    raise_if (has_field "i" contents && not (is_compact_version (get "v" payload))) value_error
    if uses_compact payload contents
        then from_compact_dict order_lookup now contents
        else from_dict now contents
