-- ===== src/Router/Exchange/Delivery.antt =====
-- The bundles of a batch reach the store.
use meshpay.Base.{
  ◌≡◌, ◌≢◌, refl, sym, ap, ◌∙◌, Bool, true, false, none, some, String, ℤ, ◌==◌, eq_iff, eq_refl,
  List, [], ◌∷◌, contains, Dict, lookup, insert, lookup-insert, has_key-lookup, arith, Bool-cases,
  Option-cases, inl, inr, ◌⊎◌,
}
use meshpay.Value.{ok}
use meshpay.Runtime.{Runtime}
use meshpay.Bundle.{Bundle, add_hop, is_delivered_to, expired}
use meshpay.Store.{
  Store, has, save, index_bundle, prune_by_order_id, delete_where, add_name, is_confirmation,
  is_transfer, payload_type, drop_where, order_id_of, is_settled_by, mark_delivered,
}
use meshpay.Store.Save.{saved-confirmed}
use meshpay.Router.Remember.{
  named_order, is_confirmed, Daemon, is_superseded, keep, remember_bundle,
}
use meshpay.Store.Kept.{bundles-index, lookup-drop_where}
use meshpay.Router.Remember.Vaccine.{store-deliver}
use meshpay.Router.Remember.Again.{never_raises, lookup-keep, bundles-mark_delivered, id-add_hop}

module _ (rt : Runtime) where
  -- The bundle is a payment object of an order that is confirmed.
  abbrev pub IsSettled : Bundle → Store → Type 0
  IsSettled b st =
      (id : String) × (contains id st.confirmed_order_ids ≡ true) × (is_settled_by rt id b ≡ true)

  -- The store has the bundle, with whatever hops.
  abbrev pub IsStored : Bundle → Store → Type 0
  IsStored b st =
      (hops : List String) × (lookup b.bundle_id st.bundles ≡ some (record b { hops = hops }))

  abbrev pub IsHeld : Bundle → Store → Type 0
  IsHeld b st = IsStored b st ⊎ IsSettled b st

  settled_same :
      (id : String) (b : Bundle) (hops : List String)
      → is_settled_by rt id (record b { hops = hops }) ≡ is_settled_by rt id b
  unfolding is_settled_by is_transfer payload_type order_id_of
  settled_same id b hops = refl

  add_name_mono :
      (x y : String) (xs : List String) → contains x xs ≡ true → contains x (add_name y xs) ≡ true
  add_name_mono x y xs h = ground (arith, h)

  index_mono :
      (b : Bundle) (st : Store) (id : String)
      → contains id st.confirmed_order_ids ≡ true
      → contains id (index_bundle rt b st).confirmed_order_ids ≡ true
  unfolding index_bundle
  index_mono b st id h = elim (Option-cases (order_id_of rt b)) [
    | inl unknown ↦ rw (index_bundle, unknown) h
    | inr (oid, known) ↦ elim (Bool-cases (is_confirmation b)) [
      | inl confirms ↦
          rw (index_bundle, known, confirms) (add_name_mono id oid st.confirmed_order_ids h)
      | inr other ↦ rw (index_bundle, known, other) h
    ]
  ]

  confirmed-save_mono :
      (b : Bundle) (st : Store) (id : String)
      → contains id st.confirmed_order_ids ≡ true
      → contains id (save rt b st).confirmed_order_ids ≡ true
  unfolding save prune_by_order_id delete_where
  confirmed-save_mono b st id h =
      let indexed = index_mono b (record st { bundles = insert b.bundle_id b st.bundles }) id h in
      elim (Bool-cases (is_confirmation b)) [
        | inr other ↦ rw (save, other) indexed
        | inl confirms ↦ elim (Option-cases (order_id_of rt b)) [
          | inl unknown ↦ rw (save, confirms, unknown) indexed
          | inr (oid, known) ↦ rw (save, confirms, known) (add_name_mono id oid _ indexed)
        ]
      ]

  lookup-save_ne :
      (b e : Bundle) (st : Store) (k : String)
      → b.bundle_id ≢ k
      → lookup k st.bundles ≡ some e
      → (lookup k (save rt b st).bundles ≡ some e)
        ⊎ ((id : String) × (contains id (save rt b st).confirmed_order_ids ≡ true)
            × (is_settled_by rt id e ≡ true))
  unfolding save prune_by_order_id delete_where
  lookup-save_ne b e st k differ there =
      let stored : Store = record st { bundles = insert b.bundle_id b st.bundles } in
      let still : lookup k (index_bundle rt b stored).bundles ≡ some e =
        rw (bundles-index rt b stored) (
          ground (
            arith,
            lookup-insert b.bundle_id k b st.bundles,
            eq_iff b.bundle_id k,
            there,
            differ,
          )) in
      elim (Bool-cases (is_confirmation b)) [
        | inr other ↦ inl (rw (save, other) still)
        | inl confirms ↦ elim (Option-cases (order_id_of rt b)) [
          | inl unknown ↦ inl (rw (save, confirms, unknown) still)
          | inr (oid, known) ↦ elim (Bool-cases (is_settled_by rt oid e)) [
            | inl settled ↦ inr (oid, (saved-confirmed rt b st oid confirms known).0, settled)
            | inr free ↦ inl (
                rw (save, confirms, known)
                  (lookup-drop_where (is_settled_by rt oid) k e _ still free))
          ]
        ]
      ]

  save-IsHeld :
      (b c : Bundle) (st : Store)
      → (c.bundle_id ≡ b.bundle_id → IsSettled b st)
      → IsHeld b st
      → IsHeld b (save rt c st)
  save-IsHeld b c st again (inr (id, there, mine)) =
      inr (id, confirmed-save_mono c st id there, mine)
  save-IsHeld b c st again (inl (hops, there)) = elim (Bool-cases (c.bundle_id == b.bundle_id)) [
    | inl equal ↦
        let (id, known, mine) = again (ground (arith, equal, eq_iff c.bundle_id b.bundle_id)) in
        inr (id, confirmed-save_mono c st id known, mine)
    | inr differ ↦
        elim (lookup-save_ne c (record b { hops = hops }) st b.bundle_id
          (ground (arith, differ, eq_iff c.bundle_id b.bundle_id)) there) [
            | inl still ↦ inl (hops, still)
            | inr (id, known, settled) ↦ inr (id, known, sym (settled_same id b hops) ∙ settled)
          ]
  ]

  confirmed-mark_delivered :
      (b : Bundle) (st : Store)
      → (mark_delivered b st).1.confirmed_order_ids ≡ st.confirmed_order_ids
  unfolding mark_delivered
  confirmed-mark_delivered b st = ground arith

  IsHeld-mark_delivered :
      (b c : Bundle) (st : Store) → IsHeld b st → IsHeld b (mark_delivered c st).1
  IsHeld-mark_delivered b c st h = rw (bundles-mark_delivered c st, confirmed-mark_delivered c st) h

  -- A bundle that is held is held after another one is kept.
  pub keep-IsHeld :
      (b c : Bundle) (d : Daemon)
      → has c.bundle_id d.store ≡ false
      → IsHeld b d.store
      → IsHeld b (keep rt c d).store
  unfolding keep has
  keep-IsHeld b c d new h =
      let c' = add_hop d.node c in
      let saved = save-IsHeld b c' d.store (again h) h in
      elim (Bool-cases (is_delivered_to d.node c')) [
        | inr other ↦ rw (keep, other) saved
        | inl ours ↦ rw (keep, ours, store-deliver) (IsHeld-mark_delivered b c' _ saved)
      ]
    where
      again : IsHeld b d.store → (add_hop d.node c).bundle_id ≡ b.bundle_id → IsSettled b d.store
      again (inr settled) same = settled
      again (inl (hops, there)) same =
          let mine : lookup c.bundle_id d.store.bundles ≡ some (record b { hops = hops }) =
            ap (λ k. lookup k d.store.bundles) (sym (id-add_hop d.node c) ∙ same) ∙ there in
          absurd (ground (arith, new, has_key-lookup c.bundle_id d.store.bundles mine))

  lookup-drop_where-none :
      (p : Bundle → Bool) (k : String) (d : Dict Bundle)
      → lookup k d ≡ none
      → lookup k (drop_where p d) ≡ none
  unfolding drop_where
  lookup-drop_where-none p k [] h = h
  lookup-drop_where-none p k ((j, c) ∷ d) h = ground (arith, h, lookup-drop_where-none p k d)

  lookup-save-none :
      (b : Bundle) (st : Store) (k : String)
      → b.bundle_id ≢ k
      → lookup k st.bundles ≡ none
      → lookup k (save rt b st).bundles ≡ none
  unfolding save prune_by_order_id delete_where
  lookup-save-none b st k differ missing =
      let stored : Store = record st { bundles = insert b.bundle_id b st.bundles } in
      let still : lookup k (index_bundle rt b stored).bundles ≡ none =
        rw (bundles-index rt b stored) (
          ground (
            arith,
            lookup-insert b.bundle_id k b st.bundles,
            eq_iff b.bundle_id k,
            missing,
            differ,
          )) in
      elim (Bool-cases (is_confirmation b)) [
        | inr other ↦ rw (save, other) still
        | inl confirms ↦ elim (Option-cases (order_id_of rt b)) [
          | inl unknown ↦ rw (save, confirms, unknown) still
          | inr (oid, known) ↦
              rw (save, confirms, known) (lookup-drop_where-none (is_settled_by rt oid) k _ still)
        ]
      ]

  -- Keeping a bundle adds no other id.
  keep-missing :
      (c : Bundle) (d : Daemon) (k : String)
      → c.bundle_id ≢ k
      → lookup k d.store.bundles ≡ none
      → lookup k (keep rt c d).store.bundles ≡ none
  unfolding keep
  keep-missing c d k differ missing =
      let c' = add_hop d.node c in
      let saved =
        lookup-save-none c' d.store k (λ same. differ (sym (id-add_hop d.node c) ∙ same)) missing in
      elim (Bool-cases (is_delivered_to d.node c')) [
        | inr other ↦ rw (keep, other) saved
        | inl ours ↦ rw (keep, ours, store-deliver, bundles-mark_delivered) saved
      ]

  add_hop-hops :
      (node : String) (b : Bundle) → add_hop node b ≡ record b { hops = (add_hop node b).hops }
  unfolding add_hop
  add_hop-hops node b = elim (Bool-cases (contains node b.hops)) [
    | inl old ↦ rw (add_hop, old) refl
    | inr new ↦ rw (add_hop, new) refl
  ]

  -- A payment object that the guard refuses is settled.
  superseded-IsSettled : (b : Bundle) (st : Store) → is_superseded b st ≡ ok true → IsSettled b st
  unfolding is_superseded is_confirmed named_order is_settled_by order_id_of
  superseded-IsSettled b st h = elim (Option-cases (order_id_of rt b)) [
    | inl unknown ↦ absurd (ground (arith, h, unknown))
    | inr (id, known) ↦ (id, ground (arith, h, known), ground (arith, h, known, eq_refl id))
  ]

  has-missing : (id : String) (st : Store) → lookup id st.bundles ≡ none → has id st ≡ false
  unfolding has
  has-missing id st h = ground (arith, h)

  -- What the receiver may have to do with a bundle that it gets: it has not expired, the guard does not
  -- raise for it, and no bundle with its id is there.
  pub record IsNews (now : ℤ) (d : Daemon) (b : Bundle) : Type 0 where
    pub fresh : expired now b ≡ false
    pub orderly : (st : Store) × (is_superseded b st ≡ ok false)
    pub missing : lookup b.bundle_id d.store.bundles ≡ none

  pub remember_bundle-holds :
      (now : ℤ) (b : Bundle) (d : Daemon)
      → IsNews now d b
      → (stored : Bool) × (d' : Daemon) × (remember_bundle rt now b d ≡ ok (stored, d'))
        × IsHeld b d'.store
        × ((k : String)
            → b.bundle_id ≢ k
            → lookup k d.store.bundles ≡ none
            → lookup k d'.store.bundles ≡ none)
  unfolding remember_bundle
  remember_bundle-holds now b d news = elim (never_raises b news.orderly.0 d.store news.orderly.1) [
    | inl gone ↦ (
      false,
      d,
      rw (remember_bundle, news.fresh, gone) refl,
      inr (superseded-IsSettled b d.store gone),
      λ k _ m. m,
    )
    | inr open_yet ↦ (
      true,
      keep rt b d,
      rw (remember_bundle, news.fresh, open_yet, has-missing b.bundle_id d.store news.missing) refl,
      inl ((add_hop d.node b).hops, lookup-keep rt b d ∙ ap some (add_hop-hops d.node b)),
      λ k. keep-missing b d k,
    )
  ]
