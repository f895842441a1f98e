-- ===== src/Router/Remember/Vaccine.antt =====
-- Payment objects of an order that is confirmed stay away.
use mathlib.Core.Path.{subst}
use meshpay.Base.{
  All-insert, All-map, ◌≡◌, Bool, true, false, ◌&&◌, ◌||◌, Option, some, String, ℤ, ◌==◌, eq_iff,
  List, [], ◌∷◌, All, contains, Dict, insert, arith, Bool-cases, inl, inr, Option-cases, ◌⊎◌, ap,
  ◌∙◌, eq_refl,
}
use meshpay.Value.{Value, obj, text, Fields, end, get_default, ok}
use meshpay.Runtime.{Runtime}
use meshpay.Transaction.Payload.{text_equals}
use meshpay.Bundle.{Bundle, add_hop, is_delivered_to}
use meshpay.Store.{
  Store, truthy, is_transfer, is_confirmation, order_id_of, is_settled_by, index_bundle, drop_where,
  prune_by_order_id, delete_where, add_name, save, mark_delivered, payload_type,
}
use meshpay.Store.Save.{saved-confirmed}
use meshpay.Router.Policy.{Policy}
use meshpay.Store.Kept.{bundles-index}
use meshpay.Router.Remember.Batch.{daemon_after, process_incoming_batch-keeps}
use meshpay.Router.Remember.{
  Daemon, is_confirmed, named_order, is_superseded, emit_delivery_event, deliver, keep,
  process_incoming_batch,
}

-- The payload is one of an order, and names it by this text.
unfoldable pub names_order : String → Bundle → Bool
names_order id b =
    (text_equals "transfer_order" (payload_type b)
      || text_equals "signed_transfer_order" (payload_type b))
    && of_payload b.payload
  where
    of_value : Option Value → Bool
    of_value (some (text s)) = truthy (some (text s)) && s == id
    of_value _ = false

    of_data : Value → Bool
    of_data (obj contents) = of_value (named_order contents)
    of_data _ = false

    of_payload : Value → Bool
    of_payload (obj fs) = of_data (get_default "data" (obj end) fs)
    of_payload _ = false

-- No payment object of a confirmed order is in the store.
unfoldable pub IsVaccinated : Store → Type 0
IsVaccinated st =
    All (λ id. All (λ e. names_order id e.1 ≡ false) st.bundles) st.confirmed_order_ids

Vaccinates : Store → Type 0
Vaccinates st =
    (id : String)
    → contains id st.confirmed_order_ids ≡ true
    → All (λ e. names_order id e.1 ≡ false) st.bundles

of_All :
    (P : String → Type 0) (xs : List String) (x : String) → All P xs → contains x xs ≡ true → P x
of_All P [] x h there = absurd (cc)
of_All P (y ∷ ys) x (py, h) there = elim (Bool-cases (y == x)) [
  | inl same ↦ subst P ((eq_iff y x).0 same) py
  | inr differ ↦ of_All P ys x h (ground (arith, differ, there))
]

to_All :
    (P : String → Type 0) (xs : List String)
    → ((x : String) → contains x xs ≡ true → P x)
    → All P xs
to_All P [] h = tt
to_All P (y ∷ ys) h =
    (h y (ground (arith, eq_refl y)), to_All P ys (λ x there. h x (ground (arith, there))))

IsVaccinated-Vaccinates : (st : Store) → IsVaccinated st → Vaccinates st
unfolding IsVaccinated Vaccinates
IsVaccinated-Vaccinates st h id there = of_All _ st.confirmed_order_ids id h there

Vaccinates-IsVaccinated : (st : Store) → Vaccinates st → IsVaccinated st
unfolding IsVaccinated Vaccinates
Vaccinates-IsVaccinated st h = to_All _ st.confirmed_order_ids h

-- A bundle that passes the guard of `remember_bundle` names no confirmed order.
guard_lem :
    (b : Bundle) (st : Store) (id : String)
    → is_superseded b st ≡ ok false
    → contains id st.confirmed_order_ids ≡ true
    → names_order id b ≡ false
unfolding is_superseded names_order is_confirmed is_transfer
guard_lem b st id passed confirmed = grind (arith, passed, confirmed, eq_iff)

add_hop_same : (node id : String) (b : Bundle) → names_order id (add_hop node b) ≡ names_order id b
unfolding add_hop names_order is_transfer payload_type
add_hop_same node id b = ground arith

-- What names an order by a text is a payment object of the order for the store, too.
settled_of_named :
    (rt : Runtime) (id : String) (b : Bundle)
    → is_settled_by rt id b ≡ false
    → names_order id b ≡ false
unfolding is_settled_by order_id_of names_order named_order is_transfer
settled_of_named rt id b h = ground (arith, h)

pub All-drop_where :
    (P : Bundle → Type 0) (p : Bundle → Bool) (d : Dict Bundle)
    → All (λ e. P e.1) d
    → All (λ e. P e.1) (drop_where p d)
unfolding drop_where
All-drop_where P p [] h = tt
All-drop_where P p ((id, b) ∷ d) (pb, h) = elim (Bool-cases (p b)) [
  | inl hit ↦ rw hit (All-drop_where P p d h)
  | inr miss ↦ rw miss (pb, All-drop_where P p d h)
]

contains-add_name-inv :
    (x y : String) (xs : List String)
    → contains x (add_name y xs) ≡ true
    → (contains x xs ≡ true) ⊎ (y ≡ x)
contains-add_name-inv x y xs h = grind (arith, eq_iff y x)

module _ (rt : Runtime) (b : Bundle) where
  -- The order whose id `save` adds to the confirmed ones.
  abbrev Confirms : String → Store → Type 0
  Confirms id st =
      (contains id st.confirmed_order_ids ≡ true)
      ⊎ ((is_confirmation b ≡ true) × (order_id_of rt b ≡ some id))

  confirmed-index :
      (st : Store) (id : String)
      → contains id (index_bundle rt b st).confirmed_order_ids ≡ true
      → Confirms id st
  unfolding index_bundle
  confirmed-index st id h = grind (arith, eq_iff)

  module _ (st : Store) where
    abbrev stored : Store
    stored = record st { bundles = insert b.bundle_id b st.bundles }

    confirmed-save :
        (id : String) → contains id (save rt b st).confirmed_order_ids ≡ true → Confirms id st
    unfolding save prune_by_order_id delete_where
    confirmed-save id h = elim (Bool-cases (is_confirmation b)) [
      | inr other ↦ confirmed-index stored id (rw (save, other) at h)
      | inl confirms ↦ elim (Option-cases (order_id_of rt b)) [
        | inl unknown ↦ confirmed-index stored id (rw (save, confirms, unknown) at h)
        | inr (oid, known) ↦
            elim (contains-add_name-inv id oid _ (rw (save, confirms, known) at h)) [
              | inl there ↦ confirmed-index stored id there
              | inr same ↦ inr (confirms, known ∙ ap some same)
            ]
      ]
    ]

    module _ (P : Bundle → Type 0) (pb : P b) (old : All (λ e. P e.1) st.bundles) where
      All-stored : All (λ e. P e.1) (index_bundle rt b stored).bundles
      All-stored = rw (bundles-index rt b stored) (All-insert P b.bundle_id b st.bundles pb old)

      All-save : All (λ e. P e.1) (save rt b st).bundles
      unfolding save prune_by_order_id delete_where
      All-save = elim (Bool-cases (is_confirmation b)) [
        | inr other ↦ rw (save, other) All-stored
        | inl confirms ↦ elim (Option-cases (order_id_of rt b)) [
          | inl unknown ↦ rw (save, confirms, unknown) All-stored
          | inr (oid, known) ↦
              rw (save, confirms, known) (All-drop_where P (is_settled_by rt oid) _ All-stored)
        ]
      ]

    save-Vaccinates :
        Vaccinates st
        → ((id : String) → contains id st.confirmed_order_ids ≡ true → names_order id b ≡ false)
        → Vaccinates (save rt b st)
    unfolding Vaccinates
    save-Vaccinates old new id h = elim (confirmed-save id h) [
      | inl before ↦ All-save (λ c. names_order id c ≡ false) (new id before) (old id before)
      | inr (confirms, known) ↦
          All-map (λ e. settled_of_named rt id e.1) _ (saved-confirmed rt b st id confirms known).1
    ]

confirmed-mark_delivered :
    (b : Bundle) (st : Store) → Vaccinates st → Vaccinates (mark_delivered b st).1
unfolding Vaccinates mark_delivered
confirmed-mark_delivered b st h = elim (Bool-cases (contains b.bundle_id st.delivered_ids)) [
  | inl old ↦ rw old h
  | inr new ↦ rw new h
]

pub store-deliver : (b : Bundle) (d : Daemon) → (deliver b d).store ≡ (mark_delivered b d.store).1
unfolding deliver emit_delivery_event
store-deliver b d = ground arith

keep-Vaccinates :
    (rt : Runtime) (b : Bundle) (d : Daemon)
    → is_superseded b d.store ≡ ok false
    → Vaccinates d.store
    → Vaccinates (keep rt b d).store
unfolding keep
keep-Vaccinates rt b d passed h =
    let b' = add_hop d.node b in
    let saved =
      save-Vaccinates rt b' d.store h
        λ id there. add_hop_same d.node id b ∙ guard_lem b d.store id passed there in
    elim (Bool-cases (is_delivered_to d.node b')) [
      | inr other ↦ rw (keep, other) saved
      | inl ours ↦ rw (keep, ours, store-deliver) (confirmed-mark_delivered b' _ saved)
    ]

-- Once an order is confirmed, no payment object that names it by this id comes into the store: where
-- there is none before a batch there is none after it, whatever the batch holds and under every
-- routing policy.
pub process_incoming_batch-IsVaccinated :
    {S : Type 0} (rt : Runtime) (policy : Policy S) (now : ℤ) (peer : String) (batch : Fields)
    (d : Daemon) (s : S)
    → IsVaccinated d.store
    → IsVaccinated (daemon_after (process_incoming_batch rt policy now peer batch (d, s)) d).store
process_incoming_batch-IsVaccinated rt policy now peer batch d s h = Vaccinates-IsVaccinated _ (
    process_incoming_batch-keeps rt (λ e. Vaccinates e.store)
      (λ b e passed _. keep-Vaccinates rt b e passed) policy now peer (λ e v. v) batch d s
      (IsVaccinated-Vaccinates d.store h))
