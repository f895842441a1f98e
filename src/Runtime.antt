-- ===== src/Runtime.antt =====
-- What the code takes from Python's standard library, as a parameter (hashlib, json, uuid and the
-- number parsers), the conversions built on it, and meshpay/offline/crypto.py.
use meshpay.Base.{
  ℕ, suc, ◌/◌, ◌<◌, ◌≡◌, ◌≢◌, Option, none, some, String, Bool, true, false, arith, ℤ, pos, negsuc,
  sub_ℕ, ◌==◌, eq_iff, if◌then◌else◌,
}
use meshpay.Value.{
  Value, null, int, real, text, Result, ok, err, value_error, type_error, or_raise, seconds, Fields,
  obj,
}
use Prim.Native.String.{◌++◌}

-- A UUID is its number, below 2 ^ 128.
abbrev pub uuid_limit : ℕ
uuid_limit = 0x1_0000_0000_0000_0000_0000_0000_0000_0000

pub record Runtime : Type 0 where
  -- `hashlib.sha256(raw.encode("utf-8")).hexdigest()`
  pub sha256 : String → String
  -- `json.dumps(payload, sort_keys=True, separators=(",", ":"), ensure_ascii=False)`
  pub dumps : Value → String
  -- `int(s)` and `float(s)` on a text, if it is a number
  pub int_of_text : String → Option ℤ
  pub real_of_text : String → Option ℤ
  -- `str(v)` on what is no text
  pub show : Value → String
  -- `str(u)`, `u.hex` and `UUID(s)`
  pub uuid_str : ℕ → String
  pub uuid_hex : ℕ → String
  pub uuid_of : String → Option ℕ
  pub uuid_of-str : (u : ℕ) → u < uuid_limit → uuid_of (uuid_str u) ≡ some u
  pub uuid_of-hex : (u : ℕ) → u < uuid_limit → uuid_of (uuid_hex u) ≡ some u
  -- A digest is 64 characters long.
  pub digest_nonempty : (s : String) → sha256 s ≢ ""

-- `int(x)` of a float drops the fraction.
abbrev pub truncate : ℤ → ℤ
truncate (pos n) = pos (n / 1_000_000)
truncate (negsuc n) = sub_ℕ 0 (suc n / 1_000_000)

module _ (rt : Runtime) where
  -- `int(v)`
  abbrev pub to_int : Value → Result ℤ
  to_int (int n) = ok n
  to_int (real r) = ok (truncate r)
  to_int (text s) = or_raise (rt.int_of_text s) value_error
  to_int _ = err type_error

  -- `float(v)`
  abbrev pub to_real : Value → Result ℤ
  to_real (real r) = ok r
  to_real (int n) = ok (seconds n)
  to_real (text s) = or_raise (rt.real_of_text s) value_error
  to_real _ = err type_error

  -- `str(v)`
  abbrev pub to_str : Value → String
  to_str (text s) = s
  to_str v = rt.show v

  -- `UUID(str(v))`
  abbrev pub to_uuid : Value → Result ℕ
  to_uuid v = or_raise (rt.uuid_of (to_str v)) value_error

  -- `canonical_json`
  unfoldable pub canonical_json : Fields → String
  canonical_json payload = rt.dumps (obj payload)

  -- `sign_payload`: the deterministic fake signature.
  unfoldable pub sign_payload : String → Fields → String
  sign_payload node_id payload = rt.sha256 (node_id ++ (":" ++ canonical_json payload))

  -- `verify_signature`; an empty signature counts as none.
  unfoldable pub verify_signature : String → Fields → Option String → Bool
  verify_signature node_id payload none = false
  verify_signature node_id payload (some signature) =
      if signature == "" then false else signature == sign_payload node_id payload

  -- What a node signs verifies under its name.
  pub verify_signature-sign_payload :
      (node_id : String) (payload : Fields)
      → verify_signature node_id payload (some (sign_payload node_id payload)) ≡ true
  unfolding verify_signature sign_payload
  verify_signature-sign_payload node_id payload = ground (
    arith,
    eq_iff (sign_payload node_id payload) "",
    eq_iff (sign_payload node_id payload) (sign_payload node_id payload),
    rt.digest_nonempty (node_id ++ (":" ++ canonical_json payload)),
  )

  -- What verifies is what the named node signs: nothing else passes.
  pub verify_signature-eq :
      (node_id : String) (payload : Fields) (signature : Option String)
      → verify_signature node_id payload signature ≡ true
      → signature ≡ some (sign_payload node_id payload)
  unfolding verify_signature
  verify_signature-eq node_id payload none h = cc
  verify_signature-eq node_id payload (some s) h =
      ground (arith, eq_iff s "", eq_iff s (sign_payload node_id payload))

-- A field that the code takes over unconverted and that is declared a text, or a text or `None`.
abbrev pub as_text : Value → Result String
as_text (text s) = ok s
as_text _ = err type_error

abbrev pub as_optional_text : Value → Result (Option String)
as_optional_text (text s) = ok (some s)
as_optional_text null = ok none
as_optional_text _ = err type_error

abbrev pub optional_text : Option String → Value
optional_text none = null
optional_text (some s) = text s
