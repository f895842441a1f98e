-- ===== src/Transaction/Payload.antt =====
-- The tags of a payload and how it is opened (`_payload_data`, meshpay/types/transaction.py).
use meshpay.Base.{Bool, false, not, Option, some, String, ℤ, pos, eq_ℤ, ◌==◌, ◌||◌}
use meshpay.Value.{
  Value, int, real, text, obj, Fields, end, field, Result, ok, err, value_error, get, has_field,
  raise_if, ◌>>◌,
}

abbrev pub payment_app : String
payment_app = "meshpay.offline"

-- `COMPACT_PAYLOAD_VERSION`
abbrev pub compact_version : ℤ
compact_version = pos 3

abbrev pub text_equals : String → Option Value → Bool
text_equals s (some (text t)) = t == s
text_equals s _ = false

-- `payload.get("v") == COMPACT_PAYLOAD_VERSION`; a whole number equals the float of its value.
abbrev pub is_compact_version : Option Value → Bool
is_compact_version (some (int n)) = eq_ℤ n compact_version
is_compact_version (some (real r)) = eq_ℤ r (pos 3_000_000)
is_compact_version _ = false

abbrev pub as_dict : Option Value → Result Fields
as_dict (some (obj data_fields)) = ok data_fields
as_dict _ = err value_error

-- `_payload_data`
unfoldable pub payload_data : Fields → String → Result Fields
payload_data payload expected_type = do
  raise_if (not (text_equals payment_app (get "app" payload))) value_error
  raise_if (not (text_equals expected_type (get "type" payload))) value_error
  as_dict (get "data" payload)

-- `to_compact_dtn_payload` and `to_full_dtn_payload`, for a payload type and its data.
abbrev pub compact_payload : String → Fields → Fields
compact_payload payload_type contents = field "app" (text payment_app) (
    field "type" (text payload_type)
      (field "v" (int compact_version) (field "data" (obj contents) end)))

abbrev pub full_payload : String → Fields → Fields
full_payload payload_type contents =
    field "app" (text payment_app)
      (field "type" (text payload_type) (field "data" (obj contents) end))

-- The choice between the two layouts in `from_dtn_payload`.
abbrev pub uses_compact : Fields → Fields → Bool
uses_compact payload contents = is_compact_version (get "v" payload) || has_field "i" contents
