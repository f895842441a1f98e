-- ===== src/Transaction/Vote.antt =====
-- `AuthorityVote` (meshpay/types/transaction.py) and its wire forms.
use meshpay.Base.{◌≡◌, refl, String, ℤ, if◌then◌else◌, List, [], ◌∷◌}
use meshpay.Value.{
  int, text, obj, Items, nil, cons, Fields, end, field, Result, ok, err, type_error, item,
  has_field, ◌>>=◌,
}
use meshpay.Runtime.{Runtime, to_int, to_str}

pub record AuthorityVote : Type 0 where
  pub authority : String
  pub signature : String
  pub epoch : ℤ
  pub weight_units : ℤ
  pub total_weight_units : ℤ
  pub committee_digest : String

-- `AuthorityVote.to_dict`
unfoldable pub to_dict : AuthorityVote → Fields
to_dict v = field "authority" (text v.authority) (
    field "signature" (text v.signature) (
      field "epoch" (int v.epoch) (
        field "weight_units" (int v.weight_units) (
          field "total_weight_units" (int v.total_weight_units)
            (field "committee_digest" (text v.committee_digest) end)))))

-- `AuthorityVote.to_compact_dict`
unfoldable pub to_compact_dict : AuthorityVote → Fields
to_compact_dict v = field "a" (text v.authority) (
    field "g" (text v.signature) (
      field "e" (int v.epoch) (
        field "w" (int v.weight_units)
          (field "n" (int v.total_weight_units) (field "c" (text v.committee_digest) end)))))

module _ (rt : Runtime) where
  -- What both layouts read, under their own names: authority, signature, epoch, weight, total, digest.
  from_names : String → String → String → String → String → String → Fields → Result AuthorityVote
  from_names ka kg ke kw kn kc fs = do
    authority ← item ka fs
    signature ← item kg fs
    epoch ← item ke fs >>= to_int rt
    weight_units ← item kw fs >>= to_int rt
    total_weight_units ← item kn fs >>= to_int rt
    committee_digest ← item kc fs
    ok (record {
      authority = to_str rt authority;
      signature = to_str rt signature;
      epoch = epoch;
      weight_units = weight_units;
      total_weight_units = total_weight_units;
      committee_digest = to_str rt committee_digest;
    })

  -- `AuthorityVote.from_compact_dict`
  unfoldable pub from_compact_dict : Fields → Result AuthorityVote
  unfolding from_names
  from_compact_dict = from_names "a" "g" "e" "w" "n" "c"

  -- `AuthorityVote.from_dict`
  unfoldable pub from_dict : Fields → Result AuthorityVote
  unfolding from_names from_compact_dict
  from_dict fs =
      if has_field "authority" fs
      then from_names "authority" "signature" "epoch" "weight_units" "total_weight_units"
          "committee_digest" fs
      else from_compact_dict fs

  pub from_compact-to_compact : (v : AuthorityVote) → from_compact_dict (to_compact_dict v) ≡ ok v
  unfolding from_compact_dict to_compact_dict
  from_compact-to_compact v = refl

  pub from-to : (v : AuthorityVote) → from_dict (to_dict v) ≡ ok v
  unfolding from_dict to_dict
  from-to v = refl

  -- `from_dict` reads the compact layout too.
  pub from-to_compact : (v : AuthorityVote) → from_dict (to_compact_dict v) ≡ ok v
  unfolding from_dict to_compact_dict
  from-to_compact v = refl

-- `[encode(vote) for vote in votes]`
unfoldable pub encode_votes : (AuthorityVote → Fields) → List AuthorityVote → Items
encode_votes encode [] = nil
encode_votes encode (v ∷ vs) = cons (obj (encode v)) (encode_votes encode vs)

-- `[decode(vote) for vote in votes]`
unfoldable pub decode_votes : (Fields → Result AuthorityVote) → Items → Result (List AuthorityVote)
decode_votes decode nil = ok []
decode_votes decode (cons (obj fs) rest) = do
  v ← decode fs
  vs ← decode_votes decode rest
  ok (v ∷ vs)
decode_votes decode (cons _ rest) = err type_error

pub decode-encode_votes :
    (encode : AuthorityVote → Fields) (decode : Fields → Result AuthorityVote)
    (trip : (v : AuthorityVote) → decode (encode v) ≡ ok v) (vs : List AuthorityVote)
    → decode_votes decode (encode_votes encode vs) ≡ ok vs
unfolding decode_votes encode_votes
decode-encode_votes encode decode trip [] = refl
decode-encode_votes encode decode trip (v ∷ vs) =
    rw (trip v, decode-encode_votes encode decode trip vs)
