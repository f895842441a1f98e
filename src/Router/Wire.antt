-- ===== src/Router/Wire.antt =====
-- `_encode_message` and `_decode_message` (dtn/router.py): a message as one line. `json`, `zlib` and
-- `base64` are a record of operations, in which a call that raises returns nothing; the JSON text is
-- ASCII, so that its length is its number of bytes. The ratio of sizes is an exact fraction.
pub mod Trip
use Prim.Native.Char.{Char, code}
use Prim.Native.String as Str
use Prim.Native.String.{len, ◌++◌}
use meshpay.Base.{
  ℕ, ◌*◌, ltb, nat_eq, Bool, true, false, ◌&&◌, ◌||◌, not, Option, none, some, String, ◌==◌,
  if◌then◌else◌,
}
use meshpay.Value.{Fields, end}

-- `bytes` is a parameter.
pub record Codec (Bytes : Type 0) : Type 0 where
  pub dumps : Fields → String
  pub loads : String → Option Fields
  pub compress : String → Bytes  -- at level 1
  pub decompress : Bytes → Option String
  pub size : Bytes → ℕ
  pub b64encode : Bytes → String
  pub b64decode : String → Option Bytes

-- The characters that `str.strip` removes.
unfoldable pub is_space : Char → Bool
is_space c = of_code (code c)
  where
    between : ℕ → ℕ → ℕ → Bool
    between low high n = not (ltb n low) && not (ltb high n)

    of_code : ℕ → Bool
    of_code n =
        between 9 13 n
        || between 28 32 n
        || nat_eq n 133
        || nat_eq n 160
        || nat_eq n 5760
        || between 8192 8202 n
        || between 8232 8233 n
        || nat_eq n 8239
        || nat_eq n 8287
        || nat_eq n 12288

unfoldable pub lstrip : String → String
lstrip Str.[] = Str.[]
lstrip (Str.◌∷◌ c s) = let rest = lstrip s in if is_space c then rest else Str.◌∷◌ c s

abbrev pub is_empty : String → Bool
is_empty Str.[] = true
is_empty (Str.◌∷◌ c s) = false

unfoldable pub rstrip : String → String
rstrip Str.[] = Str.[]
rstrip (Str.◌∷◌ c s) =
    let rest = rstrip s in if is_space c && is_empty rest then Str.[] else Str.◌∷◌ c rest

unfoldable pub strip : String → String
strip s = rstrip (lstrip s)

-- `line.startswith("{")`
unfoldable pub opens_dict : String → Bool
opens_dict Str.[] = false
opens_dict (Str.◌∷◌ c s) = nat_eq (code c) 123

abbrev pub or_empty : Option Fields → Fields
or_empty none = end
or_empty (some msg) = msg

abbrev pub first_some : Option Fields → Option Fields → Option Fields
first_some (some msg) later = some msg
first_some none later = later

abbrev pub chained : {A B : Type 0} → Option A → (A → Option B) → Option B
chained none f = none
chained (some a) f = f a

module _ {Bytes : Type 0} (codec : Codec Bytes) where
  -- `_encode_message`
  unfoldable pub encode_message : Fields → String
  encode_message msg =
      let raw = codec.dumps msg in
      let compressed = codec.compress raw in
      if ltb 512 (len raw) && ltb (10 * codec.size compressed) (9 * len raw)
      then codec.b64encode compressed ++ "\n"
      else raw ++ "\n"

  abbrev pub unpacked : String → Option Fields
  unpacked line = chained (chained (codec.b64decode line) codec.decompress) codec.loads

  -- `_decode_message`
  unfoldable pub decode_message : String → Fields
  decode_message line =
      let text = strip line in
      if is_empty text
      then end
      else if opens_dict text
      then or_empty (codec.loads text)
      else or_empty (first_some (unpacked text) (codec.loads text))
