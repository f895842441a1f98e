-- ===== src/Store/Kept.antt =====
-- What stays in the store when a bundle is saved.
use meshpay.Base.{
  ◌≡◌, refl, Bool, true, false, Option, none, some, String, ◌==◌, eq_iff, eq_refl, [], ◌∷◌, Dict,
  lookup, insert, lookup-insert, arith, Bool-cases, Option-cases, inl, inr, ◌∙◌,
}
use meshpay.Value.{Value, text, obj, arr, real, int, null}
use meshpay.Runtime.{Runtime}
use meshpay.Transaction.Payload.{text_equals}
use meshpay.Bundle.{Bundle}
use meshpay.Store.{
  Store, save, index_bundle, prune_by_order_id, delete_where, drop_where, payload_type,
  is_confirmation, is_transfer, is_settled_by, order_id_of,
}

pub bundles-index :
    (rt : Runtime) (b : Bundle) (st : Store) → (index_bundle rt b st).bundles ≡ st.bundles
unfolding index_bundle
bundles-index rt b st = ground arith

pub lookup-drop_where :
    (p : Bundle → Bool) (k : String) (b : Bundle) (d : Dict Bundle)
    → lookup k d ≡ some b
    → p b ≡ false
    → lookup k (drop_where p d) ≡ some b
unfolding drop_where
lookup-drop_where p k b [] h keep_it = h
lookup-drop_where p k b ((j, c) ∷ d) h keep_it =
    ground (arith, h, keep_it, lookup-drop_where p k b d)

not_both :
    (x y : String) (v : Option Value)
    → (x == y) ≡ false
    → text_equals x v ≡ true
    → text_equals y v ≡ false
not_both x y none differ h = cc
not_both x y (some (text s)) differ h = ground (arith, eq_iff s x, eq_iff s y, eq_iff x y)
not_both x y (some (obj fs)) differ h = cc
not_both x y (some (arr xs)) differ h = cc
not_both x y (some (real r)) differ h = cc
not_both x y (some (int n)) differ h = cc
not_both x y (some null) differ h = cc

-- A confirmation is no payment object.
confirmation_stays :
    (rt : Runtime) (id : String) (b : Bundle)
    → is_confirmation b ≡ true
    → is_settled_by rt id b ≡ false
unfolding is_confirmation is_transfer is_settled_by
confirmation_stays rt id b h = ground (
  arith,
  h,
  not_both "confirmation_order" "transfer_order" (payload_type b) refl,
  not_both "confirmation_order" "signed_transfer_order" (payload_type b) refl,
)

pub lookup-save :
    (rt : Runtime) (b : Bundle) (st : Store) → lookup b.bundle_id (save rt b st).bundles ≡ some b
unfolding save prune_by_order_id delete_where
lookup-save rt b st =
    let stored : Store = record st { bundles = insert b.bundle_id b st.bundles } in
    let there : lookup b.bundle_id (index_bundle rt b stored).bundles ≡ some b =
      rw (bundles-index rt b stored)
        (lookup-insert b.bundle_id b.bundle_id b st.bundles ∙ rw (eq_refl b.bundle_id) refl) in
    elim (Bool-cases (is_confirmation b)) [
      | inr other ↦ rw (save, other) there
      | inl confirms ↦ elim (Option-cases (order_id_of rt b)) [
        | inl unknown ↦ rw (save, confirms, unknown) there
        | inr (oid, known) ↦
            rw (save, confirms, known)
              (lookup-drop_where (is_settled_by rt oid) b.bundle_id b _ there
                (confirmation_stays rt oid b confirms))
      ]
    ]
