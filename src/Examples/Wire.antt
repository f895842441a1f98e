-- ===== src/Examples/Wire.antt =====
-- Payment objects on the wire.
use Prim.Native.String.{◌++◌}
use meshpay.Base.{ℕ, zero, suc, String, refl, some, ◌≡◌, none, pos, arith}
use meshpay.Value.{Fields, field, end, text}
use meshpay.Transaction.Transfer.RoundTrip.{IsStamped}
use meshpay.Transaction.Signed.{OrderLookup}
use meshpay.Transaction.Confirmation.{ConfirmationOrder}
use meshpay.Transaction.Confirmation.RoundTrip.{IsStampedConfirmation}
use meshpay.Adapter.{confirmation_order, to_payload, from_payload}
use meshpay.Adapter.RoundTrip.{arrives, from_payload-to_payload}
use meshpay.Router.Wire.{
  Codec, strip, lstrip, rstrip, is_space, opens_dict, encode_message, decode_message,
}
use meshpay.Router.Wire.Trip.{IsReadBack, decode_message-encode_message}
use meshpay.Examples.{python, to_bob, three_votes, confirmation_of}

-- A receiver that knows no order.
abbrev knows_none : OrderLookup
knows_none _ = none

abbrev bob_confirmed : ConfirmationOrder
bob_confirmed = confirmation_of to_bob three_votes

to_bob-IsStamped : IsStamped to_bob
to_bob-IsStamped = record { id_fits = omega arith; time_set = λ h. cc }

bob_confirmed-IsStampedConfirmation : IsStampedConfirmation bob_confirmed
bob_confirmed-IsStampedConfirmation = record {
  id_fits = omega arith;
  time_set = λ h. cc;
  order = to_bob-IsStamped;
}

from_payload-to_payload_example :
    from_payload python knows_none (pos 50) (to_payload python (confirmation_order bob_confirmed))
    ≡ arrives python knows_none (pos 50) (confirmation_order bob_confirmed)
from_payload-to_payload_example =
    from_payload-to_payload python knows_none (pos 50) (confirmation_order bob_confirmed)
      bob_confirmed-IsStampedConfirmation

abbrev hello : Fields
hello = field "type" (text "hello") end

-- A stand-in for the text of a long message, which is compressed to ten bytes.
abbrev doubled : ℕ → String → String
doubled zero s = s
doubled (suc n) s = let rest = doubled n s in rest ++ rest

abbrev long : String
long = "{" ++ (doubled 6 "          " ++ "}")

abbrev stand_in : Codec String
stand_in = record {
  dumps = λ _. long;
  loads = λ _. some hello;
  compress = λ raw. raw;
  decompress = λ z. some z;
  size = λ _. 10;
  b64encode = λ _. "e30=";
  b64decode = λ _. some long;
}

hello-IsReadBack : IsReadBack stand_in hello
unfolding strip lstrip rstrip is_space opens_dict
hello-IsReadBack = record {
  plain_solid = refl;
  plain_filled = refl;
  plain_opens = refl;
  loaded = refl;
  packed_solid = refl;
  packed_filled = refl;
  packed_opens = refl;
  decoded = refl;
  decompressed = refl;
}

hello_packed : encode_message stand_in hello ≡ "e30=\n"
unfolding encode_message
hello_packed = refl

decode_message-encode_message_example :
    decode_message stand_in (encode_message stand_in hello) ≡ hello
decode_message-encode_message_example =
    decode_message-encode_message stand_in hello hello-IsReadBack
