-- ===== src/Transaction/Transfer.antt =====
-- `TransferOrder` (meshpay/types/transaction.py) and its wire forms.
pub mod RoundTrip
use meshpay.Base.{
  ℕ, ◌≡◌, Bool, true, false, not, Option, none, some, String, ℤ, pos, eq_ℤ, ◌==◌, if◌then◌else◌,
  ◌&&◌,
}
use meshpay.Value.{
  Value, null, int, real, text, arr, obj, Fields, end, field, Result, ok, err, get, get_default,
  item, has_field, put, ◌>>=◌, seconds,
}
use meshpay.Runtime.{Runtime, to_int, to_real, to_uuid, as_text, as_optional_text, optional_text}
use meshpay.Transaction.Payload.{payload_data, compact_payload, full_payload, uses_compact}

pub record TransferOrder : Type 0 where
  pub order_id : ℕ
  pub sender : String
  pub recipient : String
  pub amount : ℤ
  pub sequence_number : ℤ
  pub timestamp : ℤ
  pub signature : Option String
  pub epoch : ℤ
  pub ttl : ℤ

abbrev pub default_ttl : ℤ
default_ttl = pos 30_000_000

-- `timestamp` after `__post_init__`: 0 stands for now.
abbrev pub stamped : ℤ → ℤ → ℤ
stamped now t = if eq_ℤ t (pos 0) then now else t

module _ (rt : Runtime) where
  -- `TransferOrder.to_dict`
  unfoldable pub to_dict : TransferOrder → Fields
  to_dict o = field "order_id" (text (rt.uuid_str o.order_id)) (
      field "sender" (text o.sender) (
        field "recipient" (text o.recipient) (
          field "amount" (int o.amount) (
            field "sequence_number" (int o.sequence_number) (
              field "timestamp" (real o.timestamp) (
                field "signature" (optional_text o.signature)
                  (field "epoch" (int o.epoch) (field "ttl" (real o.ttl) end))))))))

  -- `TransferOrder.signing_dict`
  unfoldable pub signing_dict : TransferOrder → Fields
  unfolding to_dict
  signing_dict o = put "signature" null (to_dict o)

  abbrev compact_base : TransferOrder → Fields
  compact_base o = field "i" (text (rt.uuid_hex o.order_id)) (
      field "s" (text o.sender) (
        field "r" (text o.recipient) (
          field "a" (int o.amount) (
            field "q" (int o.sequence_number)
              (field "t" (real o.timestamp) (field "g" (optional_text o.signature) end))))))

  abbrev put_epoch : TransferOrder → Fields → Fields
  put_epoch o fs = if eq_ℤ o.epoch (pos 0) then fs else put "e" (int o.epoch) fs

  abbrev put_ttl : TransferOrder → Fields → Fields
  put_ttl o fs = if eq_ℤ o.ttl default_ttl then fs else put "l" (real o.ttl) fs

  -- `TransferOrder.to_compact_dict`: the epoch and the time to live only where they are not the defaults.
  pub to_compact_dict : TransferOrder → Fields
  to_compact_dict o = put_ttl o (put_epoch o (compact_base o))

  -- `TransferOrder.from_compact_dict`
  pub from_compact_dict : ℤ → Fields → Result TransferOrder
  from_compact_dict now fs = do
    order_id ← item "i" fs >>= to_uuid rt
    sender ← item "s" fs >>= as_text
    recipient ← item "r" fs >>= as_text
    amount ← item "a" fs >>= to_int rt
    sequence_number ← item "q" fs >>= to_int rt
    timestamp ← to_real rt (get_default "t" (real (pos 0)) fs)
    signature ← as_optional_text (get_default "g" null fs)
    epoch ← to_int rt (get_default "e" (int (pos 0)) fs)
    ttl ← to_real rt (get_default "l" (real default_ttl) fs)
    ok (record {
      order_id = order_id;
      sender = sender;
      recipient = recipient;
      amount = amount;
      sequence_number = sequence_number;
      timestamp = stamped now timestamp;
      signature = signature;
      epoch = epoch;
      ttl = ttl;
    })

  -- The branch of `TransferOrder.from_dict` for the full layout.
  from_full_dict : ℤ → Fields → Result TransferOrder
  from_full_dict now fs = do
    order_id ← item "order_id" fs >>= to_uuid rt
    sender ← item "sender" fs >>= as_text
    recipient ← item "recipient" fs >>= as_text
    amount ← item "amount" fs >>= to_int rt
    sequence_number ← item "sequence_number" fs >>= to_int rt
    timestamp ← item "timestamp" fs >>= to_real rt
    signature ← as_optional_text (get_default "signature" null fs)
    epoch ← to_int rt (get_default "epoch" (int (pos 0)) fs)
    ttl ← to_real rt (get_default "ttl" (real default_ttl) fs)
    ok (record {
      order_id = order_id;
      sender = sender;
      recipient = recipient;
      amount = amount;
      sequence_number = sequence_number;
      timestamp = stamped now timestamp;
      signature = signature;
      epoch = epoch;
      ttl = ttl;
    })

  -- `TransferOrder.from_dict`
  pub from_dict : ℤ → Fields → Result TransferOrder
  unfolding from_full_dict
  from_dict now fs =
      if not (has_field "order_id" fs) && has_field "i" fs
      then from_compact_dict now fs
      else from_full_dict now fs

  -- `TransferOrder.to_dtn_payload`, which is `to_compact_dtn_payload`.
  pub to_dtn_payload : TransferOrder → Fields
  unfolding to_compact_dict
  to_dtn_payload o = compact_payload "transfer_order" (to_compact_dict o)

  pub to_full_dtn_payload : TransferOrder → Fields
  unfolding to_dict
  to_full_dtn_payload o = full_payload "transfer_order" (to_dict o)

  -- `TransferOrder.from_dtn_payload`
  pub from_dtn_payload : ℤ → Fields → Result TransferOrder
  from_dtn_payload now payload = do
    contents ← payload_data payload "transfer_order"
    if uses_compact payload contents then from_compact_dict now contents else from_dict now contents
