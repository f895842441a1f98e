-- ===== src/Bundle.antt =====
-- `Bundle` (dtn/bundle.py). The two calls of `json.dumps` with default separators are arguments.
pub mod RoundTrip
use Prim.Native.String.{slice, len}
use meshpay.Base.{
  Bool, true, false, Option, none, some, String, ℤ, pos, ◌+ℤ◌, ltb_ℤ, ◌==◌, if◌then◌else◌, List, [],
  ◌∷◌, ◌++◌, contains,
}
use meshpay.Value.{
  Value, int, real, text, arr, obj, Items, nil, cons, Fields, end, field, Result, ok, err,
  type_error, ◌>>=◌, item, get_default, as_items,
}
use meshpay.Runtime.{Runtime, to_int, to_real, as_text}

pub record Bundle : Type 0 where
  pub bundle_id : String
  pub src : String
  pub dst : String
  pub payload : Value
  pub created_at : ℤ
  pub ttl : ℤ
  pub hops : List String
  pub size_bytes : ℤ

-- A list of texts as a JSON list, and back.
unfoldable pub text_items : List String → Items
text_items [] = nil
text_items (x ∷ xs) = cons (text x) (text_items xs)

unfoldable pub items_text : Items → Result (List String)
items_text nil = ok []
items_text (cons v rest) = do x ← as_text v; xs ← items_text rest; ok (x ∷ xs)

-- `to_dict`
unfoldable pub to_dict : Bundle → Fields
to_dict b = field "bundle_id" (text b.bundle_id) (
    field "src" (text b.src) (
      field "dst" (text b.dst) (
        field "payload" b.payload (
          field "created_at" (real b.created_at) (
            field "ttl" (real b.ttl) (
              field "hops" (arr (text_items b.hops))
                (field "size_bytes" (int b.size_bytes) end)))))))

-- `expired`
unfoldable pub expired : ℤ → Bundle → Bool
expired now b = ltb_ℤ (b.created_at +ℤ b.ttl) now

-- `add_hop`
unfoldable pub add_hop : String → Bundle → Bundle
add_hop node b = if contains node b.hops then b else record b { hops = b.hops ++ (node ∷ []) }

-- `is_delivered_to`
unfoldable pub is_delivered_to : String → Bundle → Bool
is_delivered_to node b = b.dst == node

module _ (rt : Runtime) where
  -- `from_dict`
  unfoldable pub from_dict : Fields → Result Bundle
  from_dict fs = do
    bundle_id ← item "bundle_id" fs >>= as_text
    src ← item "src" fs >>= as_text
    dst ← item "dst" fs >>= as_text
    payload ← item "payload" fs
    created_at ← item "created_at" fs >>= to_real rt
    ttl ← item "ttl" fs >>= to_real rt
    hops ← as_items (get_default "hops" (arr nil) fs) >>= items_text
    size_bytes ← to_int rt (get_default "size_bytes" (int (pos 0)) fs)
    ok (record {
      bundle_id = bundle_id;
      src = src;
      dst = dst;
      payload = payload;
      created_at = created_at;
      ttl = ttl;
      hops = hops;
      size_bytes = size_bytes;
    })

  -- `create`; the id is the first 24 characters of a digest.
  unfoldable pub create :
      (Value → String) → (Value → String) → ℤ → String → String → Value → ℤ → Bundle
  create sorted_json json now src dst payload ttl = record {
    bundle_id =
        slice
          (rt.sha256 (
            sorted_json (
              obj (
                field "src" (text src) (
                  field "dst" (text dst)
                    (field "payload" payload (field "created_at" (real now) end)))))))
          0 24;
    src = src;
    dst = dst;
    payload = payload;
    created_at = now;
    ttl = ttl;
    hops = src ∷ [];
    size_bytes = pos (len (json payload));
  }
