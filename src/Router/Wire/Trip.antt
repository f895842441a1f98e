-- ===== src/Router/Wire/Trip.antt =====
-- A message that is sent as a line.
use Prim.Native.String as Str
use Prim.Native.String.{◌++◌, len}
use Prim.Native.String.append
use meshpay.Base.{
  ltb, ◌*◌, sym, ◌≡◌, refl, ap, ◌∙◌, true, false, ◌&&◌, some, String, if◌then◌else◌, Bool-cases,
  inl, inr,
}
use meshpay.Value.{Fields}
use meshpay.Router.Wire.{
  Codec, is_space, lstrip, rstrip, strip, is_empty, opens_dict, encode_message, decode_message,
}

newline-rstrip : rstrip "\n" ≡ Str.[]
unfolding rstrip is_space
newline-rstrip = refl

newline-strip : strip "\n" ≡ Str.[]
unfolding strip lstrip rstrip is_space
newline-strip = refl

rstrip-newline : (s : String) → rstrip (s ++ "\n") ≡ rstrip s
unfolding rstrip
rstrip-newline Str.[] = ap rstrip (append.nil "\n") ∙ newline-rstrip
rstrip-newline (Str.◌∷◌ c s) =
    ap rstrip (append.cons c s "\n")
    ∙ ap (λ rest. if is_space c && is_empty rest then Str.[] else Str.◌∷◌ c rest) (rstrip-newline s)

strip-newline : (s : String) → strip (s ++ "\n") ≡ strip s
unfolding strip lstrip rstrip
strip-newline Str.[] = ap strip (append.nil "\n") ∙ newline-strip
strip-newline (Str.◌∷◌ c s) = elim (Bool-cases (is_space c)) [
  | inl space ↦ ap strip (append.cons c s "\n") ∙ rw space (strip-newline s)
  | inr solid ↦
      ap strip (append.cons c s "\n")
      ∙ rw solid (ap rstrip (sym (append.cons c s "\n")) ∙ rstrip-newline (Str.◌∷◌ c s))
]

-- What the operations do with one message: its JSON text and the base64 text of it compressed have no
-- space around them, the first begins with a brace and the second does not, and each is read back.
pub record IsReadBack {Bytes : Type 0} (codec : Codec Bytes) (msg : Fields) : Type 0 where
  pub plain_solid : strip (codec.dumps msg) ≡ codec.dumps msg
  pub plain_filled : is_empty (codec.dumps msg) ≡ false
  pub plain_opens : opens_dict (codec.dumps msg) ≡ true
  pub loaded : codec.loads (codec.dumps msg) ≡ some msg
  pub packed_solid :
      strip (codec.b64encode (codec.compress (codec.dumps msg)))
      ≡ codec.b64encode (codec.compress (codec.dumps msg))
  pub packed_filled : is_empty (codec.b64encode (codec.compress (codec.dumps msg))) ≡ false
  pub packed_opens : opens_dict (codec.b64encode (codec.compress (codec.dumps msg))) ≡ false
  pub decoded :
      codec.b64decode (codec.b64encode (codec.compress (codec.dumps msg)))
      ≡ some (codec.compress (codec.dumps msg))
  pub decompressed : codec.decompress (codec.compress (codec.dumps msg)) ≡ some (codec.dumps msg)

module _ {Bytes : Type 0} (codec : Codec Bytes) (msg : Fields) (laws : IsReadBack codec msg) where
  plain_trip : decode_message codec (codec.dumps msg ++ "\n") ≡ msg
  unfolding decode_message
  plain_trip =
      rw
        (
          strip-newline (codec.dumps msg),
          laws.plain_solid,
          laws.plain_filled,
          laws.plain_opens,
          laws.loaded,
        )
        refl

  packed_trip :
      decode_message codec (codec.b64encode (codec.compress (codec.dumps msg)) ++ "\n") ≡ msg
  unfolding decode_message
  packed_trip =
      rw
        (
          strip-newline (codec.b64encode (codec.compress (codec.dumps msg))),
          laws.packed_solid,
          laws.packed_filled,
          laws.packed_opens,
          laws.decoded,
          laws.decompressed,
          laws.loaded,
        )
        refl

  -- A message that is encoded as a line, plain or compressed, is decoded as it was, where `json`,
  -- `zlib` and `base64` read back what they have written of it.
  pub decode_message-encode_message : decode_message codec (encode_message codec msg) ≡ msg
  unfolding encode_message
  decode_message-encode_message =
      let raw = codec.dumps msg in
      let z = codec.compress raw in
      elim (Bool-cases (ltb 512 (len raw) && ltb (10 * codec.size z) (9 * len raw))) [
        | inl small ↦ rw (encode_message, small) packed_trip
        | inr large ↦ rw (encode_message, large) plain_trip
      ]
