-- ===== src/Router/Exchange/Proper.antt =====
-- A store stays well-formed when bundles arrive.
use mathlib.Core.Path.{subst}
use meshpay.Base.{
  All-insert, ◌≡◌, ◌≢◌, refl, sym, ap, Bool, false, String, ◌==◌, eq_iff, [], ◌∷◌, All, IsNodup,
  Dict, insert, keys, arith, Bool-cases, Option-cases, inl, inr, ◌⊎◌,
}
use meshpay.Value.{ok}
use meshpay.Runtime.{Runtime}
use meshpay.Bundle.{Bundle, add_hop, is_delivered_to}
use meshpay.Store.{
  Store, save, prune_by_order_id, delete_where, drop_where, is_confirmation, order_id_of,
  is_transfer, payload_type, is_settled_by,
}
use meshpay.Store.Unknown.{IsKeyed, drop_where-IsKeyed}
use meshpay.Router.Remember.{Daemon, is_superseded, keep}
use meshpay.Store.Kept.{bundles-index}
use meshpay.Router.Remember.Vaccine.{store-deliver, All-drop_where}
use meshpay.Router.Remember.Again.{bundles-mark_delivered}
use meshpay.Router.Exchange.Offers.{IsOrderly, IsProper, drop_where-once}

-- `save` inserts the bundle, and may drop some.
save_bundles :
    (rt : Runtime) (b : Bundle) (st : Store)
    → ((save rt b st).bundles ≡ insert b.bundle_id b st.bundles)
      ⊎ ((p : Bundle → Bool) × ((save rt b st).bundles
            ≡ drop_where p (insert b.bundle_id b st.bundles)))
unfolding save prune_by_order_id delete_where
save_bundles rt b st =
    let indexed = bundles-index rt b (record st { bundles = insert b.bundle_id b st.bundles }) in
    elim (Bool-cases (is_confirmation b)) [
      | inr other ↦ inl (rw (save, other) indexed)
      | inl confirms ↦ elim (Option-cases (order_id_of rt b)) [
        | inl unknown ↦ inl (rw (save, confirms, unknown) indexed)
        | inr (oid, known) ↦ inr (
          is_settled_by rt oid,
          rw (save, confirms, known) (ap (drop_where (is_settled_by rt oid)) indexed),
        )
      ]
    ]

insert-IsKeyed : (b : Bundle) (d : Dict Bundle) → IsKeyed d → IsKeyed (insert b.bundle_id b d)
insert-IsKeyed b [] h = (refl, tt)
insert-IsKeyed b ((j, c) ∷ d) (same, h) = elim (Bool-cases (j == b.bundle_id)) [
  | inl old ↦ rw old (ground (arith, old, eq_iff j b.bundle_id), h)
  | inr new ↦ rw new (same, insert-IsKeyed b d h)
]

keys-insert-All :
    (P : String → Type 0) (k : String) (b : Bundle) (d : Dict Bundle)
    → P k
    → All P (keys d)
    → All P (keys (insert k b d))
keys-insert-All P k b [] pk h = (pk, tt)
keys-insert-All P k b ((j, c) ∷ d) pk (pj, h) = elim (Bool-cases (j == k)) [
  | inl old ↦ rw old (pj, h)
  | inr new ↦ rw new (pj, keys-insert-All P k b d pk h)
]

insert-once :
    (k : String) (b : Bundle) (d : Dict Bundle) → IsNodup (keys d) → IsNodup (keys (insert k b d))
insert-once k b [] h = (tt, tt)
insert-once k b ((j, c) ∷ d) (n, h) = elim (Bool-cases (j == k)) [
  | inl old ↦ rw old (n, h)
  | inr new ↦
      rw new (
        keys-insert-All (λ y. y ≢ j) k b d (ground (arith, new, eq_iff j k)) n,
        insert-once k b d h,
      )
]

insert-IsProper :
    (b : Bundle) (d : Dict Bundle) → IsOrderly b → IsProper d → IsProper (insert b.bundle_id b d)
insert-IsProper b d orderly h = record {
  keyed = insert-IsKeyed b d h.keyed;
  once = insert-once b.bundle_id b d h.once;
  orderly = All-insert IsOrderly b.bundle_id b d orderly h.orderly;
}

pub drop_where-IsProper :
    (p : Bundle → Bool) (d : Dict Bundle) → IsProper d → IsProper (drop_where p d)
drop_where-IsProper p d h = record {
  keyed = drop_where-IsKeyed p d h.keyed;
  once = drop_where-once p d h.once;
  orderly = All-drop_where IsOrderly p d h.orderly;
}

save-IsProper :
    (rt : Runtime) (b : Bundle) (st : Store)
    → IsOrderly b
    → IsProper st.bundles
    → IsProper (save rt b st).bundles
save-IsProper rt b st orderly h = elim (save_bundles rt b st) [
  | inl e ↦ subst IsProper (sym e) (insert-IsProper b st.bundles orderly h)
  | inr (p, e) ↦
      subst IsProper (sym e) (drop_where-IsProper p _ (insert-IsProper b st.bundles orderly h))
]

add_hop-IsOrderly : (node : String) (b : Bundle) → IsOrderly b → IsOrderly (add_hop node b)
unfolding add_hop is_superseded is_transfer payload_type
add_hop-IsOrderly node b (st, h) = (st, ground (arith, h))

pub keep-IsProper :
    (rt : Runtime) (b : Bundle) (d : Daemon)
    → is_superseded b d.store ≡ ok false
    → IsProper d.store.bundles
    → IsProper (keep rt b d).store.bundles
unfolding keep
keep-IsProper rt b d passed h =
    let b' = add_hop d.node b in
    let saved = save-IsProper rt b' d.store (add_hop-IsOrderly d.node b (d.store, passed)) h in
    elim (Bool-cases (is_delivered_to d.node b')) [
      | inr other ↦ rw (keep, other) saved
      | inl ours ↦ rw (keep, ours, store-deliver, bundles-mark_delivered) saved
    ]
