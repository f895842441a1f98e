-- ===== src/Examples/Bundles.antt =====
-- A store with a bundle that carries the order `xxx`, and its confirmation.
use meshpay.Base.{
  lookup, ◌≢◌, ◌⊎◌, String, ◌≤◌, ◌≡◌, refl, true, false, some, String, pos, [], ◌∷◌, All, contains,
  length, arith, ◌+◌,
}
use meshpay.Value.{text, obj, end, field}
use mathlib.Core.Option.{get_or}
use meshpay.Spray.{Router, assign}
use meshpay.Spray.Copies.{copies_of, assign-shares}
use meshpay.Bundle.{Bundle, expired}
use meshpay.Store.{Store, payload_type, is_confirmation, order_id_of, save, unknown_to_peer}
use meshpay.Store.Save.{save-settles, IsPaymentOf, HasType}
use meshpay.Store.Order.{IsAmong, AreInOrder}
use meshpay.Store.Priority.{MayPrecede}
use meshpay.Store.Unknown.{IsOffer, IsKeyed, unknown_to_peer-offers}
use meshpay.Examples.{python}

abbrev pub bundle_of : String → String → Bundle
bundle_of id type = record {
  bundle_id = id;
  src = "ann";
  dst = "bob";
  payload =
      obj (field "type" (text type) (field "data" (obj (field "order_id" (text "xxx") end)) end));
  created_at = pos 10;
  ttl = pos 300;
  hops = "ann" ∷ "c" ∷ [];
  size_bytes = pos 77;
}

abbrev pub order_bundle : Bundle
order_bundle = bundle_of "b1" "transfer_order"

abbrev pub confirmation_bundle : Bundle
confirmation_bundle = bundle_of "b2" "confirmation_order"

abbrev pub store : Store
store = record {
  bundles = ("b1", order_bundle) ∷ [];
  confirmed_order_ids = [];
  delivered_ids = [];
  bundle_order_ids = ("b1", "xxx") ∷ [];
  bundles_saved = 1;
  bundles_deleted = 0;
  confirmation_prunes = 0;
}

confirms : is_confirmation confirmation_bundle ≡ true
unfolding is_confirmation payload_type
confirms = refl

confirms_xxx : order_id_of python confirmation_bundle ≡ some "xxx"
unfolding order_id_of
confirms_xxx = refl

no_confirmation : is_confirmation order_bundle ≡ false
unfolding is_confirmation payload_type
no_confirmation = refl

save-settles_example :
    (contains "xxx" (save python confirmation_bundle store).confirmed_order_ids ≡ true)
    × (lookup "b2" (save python confirmation_bundle store).bundles ≡ some confirmation_bundle)
    × All (λ e. IsPaymentOf "xxx" e.1 → ⊥) (save python confirmation_bundle store).bundles
    × ((k : String) (e : Bundle)
        → k ≢ "b2"
        → lookup k store.bundles ≡ some e
        → (HasType "transfer_order" e → ⊥)
        → (HasType "signed_transfer_order" e → ⊥)
        → lookup k (save python confirmation_bundle store).bundles ≡ some e)
save-settles_example = save-settles python confirmation_bundle store "xxx" confirms confirms_xxx

unknown_to_peer-offers_example :
    (length (unknown_to_peer (pos 20) ("b7" ∷ []) (some "bob") (some (pos 2)) store).0 ≤ 2)
    × All
        (IsOffer (pos 20) ("b7" ∷ []) store.bundles)
        (unknown_to_peer (pos 20) ("b7" ∷ []) (some "bob") (some (pos 2)) store).0
    × AreInOrder
        (MayPrecede (some "bob"))
        (unknown_to_peer (pos 20) ("b7" ∷ []) (some "bob") (some (pos 2)) store).0
    × ((k : String) (e : Bundle)
        → lookup k store.bundles ≡ some e
        → expired (pos 20) e ≡ false
        → contains k ("b7" ∷ []) ≡ false
        → IsAmong e (unknown_to_peer (pos 20) ("b7" ∷ []) (some "bob") (some (pos 2)) store).0
          ⊎ ((length (unknown_to_peer (pos 20) ("b7" ∷ []) (some "bob") (some (pos 2)) store).0 ≡ 2)
              × All
                  (λ x. MayPrecede (some "bob") x e)
                  (unknown_to_peer (pos 20) ("b7" ∷ []) (some "bob") (some (pos 2)) store).0))
    × IsKeyed (unknown_to_peer (pos 20) ("b7" ∷ []) (some "bob") (some (pos 2)) store).1.bundles
unknown_to_peer-offers_example =
    unknown_to_peer-offers (pos 20) (pos 2) ("b7" ∷ []) (some "bob") store (refl, tt)

abbrev router : Router
router = record {
  node = "ann";
  initial_copies = 32;
  max_bundles_per_exchange = 1;
  copies = ("b1", 5) ∷ [];
  pending_peer_copies = [];
}

assign-shares_example :
    (copies_of router order_bundle (assign router "c" order_bundle router.copies).0
        + get_or (assign router "c" order_bundle router.copies).1 0
      ≡ copies_of router order_bundle router.copies)
    × (1 ≤ copies_of router order_bundle (assign router "c" order_bundle router.copies).0)
    × (1 ≤ get_or (assign router "c" order_bundle router.copies).1 1)
assign-shares_example = assign-shares router "c" order_bundle router.copies refl (omega arith)
