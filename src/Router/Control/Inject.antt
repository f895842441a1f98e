-- ===== src/Router/Control/Inject.antt =====
-- What a control request leaves in the store.
use mathlib.Core.Path.{subst}
use meshpay.Base.{
  ℕ, suc, ◌+◌, ◌≡◌, refl, ap, ◌∙◌, Bool, true, false, some, String, ℤ, if◌then◌else◌, inl, inr,
  arith, ◌≤◌, List, [], ◌∷◌, ◌++◌, All, IsNodup, map, length,
}
use meshpay.Value.{
  Value, text, arr, obj, Fields, field, end, Items, nil, cons, Error, Result, ok, err, as_fields,
}
use meshpay.Runtime.{Runtime}
use meshpay.Bundle.{Bundle, from_dict, to_dict}
use meshpay.Bundle.RoundTrip.{bundle-from_dict-to_dict}
use meshpay.Store.{has}
use meshpay.Router.Remember.{
  Daemon, is_superseded, keep, remember_bundle, remember_control_bundle, record_event, created,
  inject_duplicate,
}
use meshpay.Router.Remember.Batch.{Result-cases, remember_bundle-cases}
use meshpay.Router.Exchange.Delivery.{IsHeld, IsNews, remember_bundle-holds, keep-IsHeld}
use meshpay.Router.Exchange.Batches.{still-IsNews}
use meshpay.Router.Control.{
  inject_batch_ack, and_then, inject_one, inject_all, answer_request, replied,
  handle_control_request,
}

-- Bundles as the items of a request.
unfoldable pub bundle_items : List Bundle → Items
bundle_items [] = nil
bundle_items (b ∷ bs) = cons (obj (to_dict b)) (bundle_items bs)

abbrev pub batch_request : List Bundle → Fields
batch_request bs = field "type" (text "inject_batch") (field "bundles" (arr (bundle_items bs)) end)

abbrev pub bundle_ids : List Bundle → List String
bundle_ids bs = map (λ b. b.bundle_id) bs

module _ (rt : Runtime) (now : ℤ) where
  module _ (P : Daemon → Type 0)
      (kept : (b : Bundle) (d : Daemon)
        → is_superseded b d.store ≡ ok false
        → has b.bundle_id d.store ≡ false
        → P d
        → P (keep rt b d))
      (noted : (d : Daemon) (b : Bundle) (stored : Bool)
        → P d
        → P (
            record_event
              (if stored then created b.bundle_id else inject_duplicate b.bundle_id)
              d)) where
    abbrev daemon_of : Result (Bool × String × Daemon) → Daemon → Daemon
    daemon_of (ok (stored, id, d')) d = d'
    daemon_of (err e) d = d

    inject_one-keeps : (v : Value) (d : Daemon) → P d → P (daemon_of (inject_one rt now v d) d)
    unfolding inject_one remember_control_bundle
    inject_one-keeps v d p = elim (Result-cases (as_fields v)) [
      | inl (e, raised) ↦ rw (inject_one, raised) p
      | inr (fields, dict) ↦ elim (Result-cases (from_dict rt fields)) [
        | inl (e, raised) ↦ rw (inject_one, dict, raised) p
        | inr (b, decoded) ↦ elim (remember_bundle-cases rt now b d) [
          | inl (e, raised) ↦ rw (inject_one, dict, decoded, raised) p
          | inr (inl refused) ↦ rw (inject_one, dict, decoded, refused) (noted d b false p)
          | inr (inr (taken, _, passed, new)) ↦
              rw (inject_one, dict, decoded, taken)
                (noted (keep rt b d) b true (kept b d passed new p))
        ]
      ]
    ]

    -- What every injected bundle keeps, a batch keeps, exceptions included.
    pub inject_all-keeps :
        (items : Items) (n : ℕ) (ids : List String) (d : Daemon)
        → P d
        → P (inject_all rt now items n ids d).1
    unfolding inject_all
    inject_all-keeps nil n ids d p = p
    inject_all-keeps (cons v rest) n ids d p =
        go (λ stored id e. inject_all-keeps rest _ _ e) (inject_one rt now v d)
          (inject_one-keeps v d p)
      where
        go :
            ((stored : Bool) (id : String) (e : Daemon)
              → P e
              → P (inject_all rt now rest (if stored then suc n else n) (ids ++ (id ∷ [])) e).1)
            → (r : Result (Bool × String × Daemon)) → P (daemon_of r d)
            → P
                (and_then rt now
                  (λ stored id e.
                    inject_all rt now rest (if stored then suc n else n) (ids ++ (id ∷ [])) e)
                  r
                  d).1
        go again (err e) q = q
        go again (ok (stored, id, d')) q = again stored id d' q

  inject_one-news :
      (b : Bundle) (d d' : Daemon) (stored : Bool)
      → remember_bundle rt now b d ≡ ok (stored, d')
      → inject_one rt now (obj (to_dict b)) d
        ≡ ok (
          stored,
          b.bundle_id,
          record_event (if stored then created b.bundle_id else inject_duplicate b.bundle_id) d',
        )
  unfolding inject_one remember_control_bundle
  inject_one-news b d d' stored same = rw (bundle-from_dict-to_dict rt b, same)

  append_nil : (xs : List String) → xs ++ [] ≡ xs
  append_nil [] = refl
  append_nil (x ∷ xs) = ap (λ zs. x ∷ zs) (append_nil xs)

  append-snoc : (xs ys : List String) (x : String) → (xs ++ (x ∷ [])) ++ ys ≡ xs ++ (x ∷ ys)
  append-snoc [] ys x = refl
  append-snoc (y ∷ xs) ys x = ap (λ zs. y ∷ zs) (append-snoc xs ys x)

  -- The loop over bundles that are news: all are acknowledged and held.
  pub inject_all-IsHeld :
      (bs : List Bundle) (n : ℕ) (ids : List String) (d : Daemon)
      → All (IsNews rt now d) bs
      → IsNodup (bundle_ids bs)
      → (stored : ℕ) × (d' : Daemon) × (inject_all rt now (bundle_items bs) n ids d ≡ (
        ok (inject_batch_ack stored (length (ids ++ bundle_ids bs)) (ids ++ bundle_ids bs)),
        d',
      ))
        × (stored ≤ n + length bs)
        × All (λ b. IsHeld rt b d'.store) bs
  unfolding inject_all bundle_items
  inject_all-IsHeld [] n ids d news nodup = (n, d, rw (append_nil ids) refl, omega arith, tt)
  inject_all-IsHeld (b ∷ bs) n ids d (this, news) (differ, nodup) =
      let (stored, d1, same, held, others) = remember_bundle-holds rt now b d this in
      let e =
        record_event (if stored then created b.bundle_id else inject_duplicate b.bundle_id) d1 in
      let n' = if stored then suc n else n in
      let (count, d', run, most, rest) =
        inject_all-IsHeld bs n' (ids ++ (b.bundle_id ∷ [])) e
          (still-IsNews rt now b.bundle_id d e bs others differ news) nodup in
      let all = ids ++ (b.bundle_id ∷ bundle_ids bs) in
      let here : inject_all rt now (bundle_items (b ∷ bs)) n ids d
          ≡ (ok (inject_batch_ack count (length all) all), d') =
        ap
          (λ r.
            and_then rt now
              (λ s i x.
                inject_all rt now (bundle_items bs) (if s then suc n else n) (ids ++ (i ∷ [])) x)
              r d)
          (inject_one-news b d d1 stored same)
        ∙ run
        ∙ ap (λ xs. (ok (inject_batch_ack count (length xs) xs), d'))
            (append-snoc ids (bundle_ids bs) b.bundle_id) in
      (
        count,
        d',
        here,
        ground (arith, most),
        (
          subst (λ x. IsHeld rt b x.store) (ap (λ r. r.1) run)
              (inject_all-keeps (λ x. IsHeld rt b x.store)
                (λ c x _ new h. keep-IsHeld rt b c x new h) (λ x c s h. h) (bundle_items bs) n'
                (ids ++ (b.bundle_id ∷ [])) e held),
          rest,
        ),
      )

  ids-length : (bs : List Bundle) → length (bundle_ids bs) ≡ length bs
  ids-length [] = refl
  ids-length (b ∷ bs) = ap suc (ids-length bs)

  -- A request to inject bundles with different ids that are news to the daemon is answered with
  -- all their ids, in order, and their number, of which it calls at most all stored. The daemon then
  -- holds each of them, but for payment objects of orders that are confirmed.
  pub handle_control_request-injects :
      (repr : Error → String) (bs : List Bundle) (d : Daemon)
      → All (IsNews rt now d) bs
      → IsNodup (bundle_ids bs)
      → (stored : ℕ) × (d' : Daemon) × (handle_control_request rt now repr (batch_request bs) d
          ≡ (some (inject_batch_ack stored (length bs) (bundle_ids bs)), d'))
        × (stored ≤ length bs)
        × All (λ b. IsHeld rt b d'.store) bs
  unfolding handle_control_request answer_request
  handle_control_request-injects repr bs d news nodup =
      let (stored, d', run, most, held) = inject_all-IsHeld bs 0 [] d news nodup in
      (
        stored,
        d',
        ap (replied rt now repr) run
            ∙ ap (λ n. (some (inject_batch_ack stored n (bundle_ids bs)), d')) (ids-length bs),
        omega (arith, most),
        held,
      )
