-- ===== src/Router/Remember/Once.antt =====
-- The runtime hears of each bundle once.
use meshpay.Base.{
  ◌≡◌, ◌≢◌, true, false, String, ℤ, eq_refl, List, [], ◌∷◌, All, IsNodup, contains, arith,
  Bool-cases, inl, inr, ◌⊎◌,
}
use meshpay.Value.{Fields}
use meshpay.Runtime.{Runtime}
use meshpay.Bundle.{Bundle, add_hop, is_delivered_to}
use meshpay.Store.{Store, save, index_bundle, prune_by_order_id, delete_where, mark_delivered}
use meshpay.Router.Policy.{Policy}
use meshpay.Router.Remember.Batch.{daemon_after, process_incoming_batch-keeps}
use meshpay.Router.Remember.{
  Daemon, Event, delivery_event, record_event, emit_delivery_event, deliver, keep,
  process_incoming_batch,
}

-- The ids of the bundles that the runtime was sent.
unfoldable pub sent_ids : List Event → List String
sent_ids [] = []
sent_ids (delivery_event b ∷ es) = b.bundle_id ∷ sent_ids es
sent_ids (_ ∷ es) = sent_ids es

pub record IsOnce (d : Daemon) : Type 0 where
  pub different : IsNodup (sent_ids d.events)
  pub noted : All (λ id. contains id d.store.delivered_ids ≡ true) (sent_ids d.events)

delivered-save :
    (rt : Runtime) (b : Bundle) (st : Store) → (save rt b st).delivered_ids ≡ st.delivered_ids
unfolding save index_bundle prune_by_order_id delete_where
delivered-save rt b st = ground arith

All-more :
    (x : String) (ds xs : List String)
    → All (λ id. contains id ds ≡ true) xs
    → All (λ id. contains id (x ∷ ds) ≡ true) xs
All-more x ds [] h = tt
All-more x ds (y ∷ ys) (h, hs) = (ground (arith, h), All-more x ds ys hs)

not_among :
    (x : String) (ds xs : List String)
    → contains x ds ≡ false
    → All (λ id. contains id ds ≡ true) xs
    → All (λ y. y ≢ x) xs
not_among x ds [] new h = tt
not_among x ds (y ∷ ys) new (h, hs) = (λ same. cc, not_among x ds ys new hs)

emit-cases :
    (b : Bundle) (d : Daemon)
    → (emit_delivery_event b d ≡ d) ⊎ (emit_delivery_event b d ≡ record_event (delivery_event b) d)
unfolding emit_delivery_event
emit-cases b d = ground arith

deliver-IsOnce : (b : Bundle) (d : Daemon) → IsOnce d → IsOnce (deliver b d)
unfolding deliver mark_delivered sent_ids
deliver-IsOnce b d h = elim (Bool-cases (contains b.bundle_id d.store.delivered_ids)) [
  | inl old ↦ rw (deliver, mark_delivered, old) h
  | inr new ↦
      let ids = sent_ids d.events in
      let more = All-more b.bundle_id d.store.delivered_ids ids h.noted in
      elim (emit-cases b (record d { store = (mark_delivered b d.store).1 })) [
        | inl quiet ↦
            rw (deliver, quiet)
              (rw (mark_delivered, new) (record { different = h.different; noted = more }))
        | inr sent ↦
            rw (deliver, sent)
              (rw (mark_delivered, new)
                (record {
                  different =
                      (not_among b.bundle_id d.store.delivered_ids ids new h.noted, h.different);
                  noted = (ground (arith, eq_refl b.bundle_id), more);
                }))
      ]
]

keep-IsOnce : (rt : Runtime) (b : Bundle) (d : Daemon) → IsOnce d → IsOnce (keep rt b d)
unfolding keep sent_ids
keep-IsOnce rt b d h =
    let b' = add_hop d.node b in
    let saved : IsOnce _ = record {
      different = h.different;
      noted = rw (delivered-save rt b' d.store) h.noted;
    } in
    elim (Bool-cases (is_delivered_to d.node b')) [
      | inr other ↦ rw (keep, other) saved
      | inl ours ↦ rw (keep, ours) (deliver-IsOnce b' _ saved)
    ]

-- However often a bundle arrives, the runtime is sent it at most once: where the bundles it was sent
-- are different and noted as delivered before a batch, they are after it.
pub process_incoming_batch-IsOnce :
    {S : Type 0} (rt : Runtime) (policy : Policy S) (now : ℤ) (peer : String) (batch : Fields)
    (d : Daemon) (s : S)
    → IsOnce d
    → IsOnce (daemon_after (process_incoming_batch rt policy now peer batch (d, s)) d)
unfolding sent_ids
process_incoming_batch-IsOnce rt policy now peer batch d s h =
    process_incoming_batch-keeps rt IsOnce (λ b e _ _. keep-IsOnce rt b e) policy now peer
      (λ e v. record { different = v.different; noted = v.noted }) batch d s h
