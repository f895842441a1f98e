-- ===== src/Router/Exchange/Batches.antt =====
-- All bundles of a batch reach the store.
use mathlib.Core.Path.{subst}
use meshpay.Store.{Store}
use meshpay.Base.{
  ℕ, suc, ◌≡◌, ◌≢◌, refl, ap, sym, Bool, none, String, ℤ, if◌then◌else◌, List, [], ◌∷◌, All,
  IsNodup, map, lookup,
}
use meshpay.Value.{Value, ok, obj, cons, Items}
use meshpay.Runtime.{Runtime}
use meshpay.Bundle.{Bundle, from_dict}
use meshpay.Router.Policy.{Policy, received_bundle_metadata}
use meshpay.Router.Remember.{Daemon, take_in, taken, take_all, remember_bundle}
use meshpay.Router.Remember.Batch.{take_all-keeps}
use meshpay.Router.Exchange.{wire_items}
use meshpay.Router.Exchange.Delivery.{IsHeld, IsNews, remember_bundle-holds, keep-IsHeld}

pub still-IsNews :
    (rt : Runtime) (now : ℤ) (x : String) (d d' : Daemon) (bs : List Bundle)
    → ((k : String) → x ≢ k → lookup k d.store.bundles ≡ none → lookup k d'.store.bundles ≡ none)
    → All (λ y. y ≢ x) (map (λ b. b.bundle_id) bs)
    → All (IsNews rt now d) bs
    → All (IsNews rt now d') bs
still-IsNews rt now x d d' [] kept differ news = tt
still-IsNews rt now x d d' (b ∷ bs) kept (other, differ) (n, news) = (
  record {
    fresh = n.fresh;
    orderly = n.orderly;
    missing = kept b.bundle_id (λ same. other (sym same)) n.missing;
  },
  still-IsNews rt now x d d' bs kept differ news,
)

module _ {S T : Type 0} (rt : Runtime) (policy : Policy S) (sender : Policy T) (now : ℤ)
    (peer receiver : String) (t : T)
    (decodes : (b : Bundle) → from_dict rt (sender.bundle_to_wire b receiver t) ≡ ok b) where
  store_after : (items : Items) (count : ℕ) (d : Daemon) (s : S) → Store
  store_after items count d s = (take_all rt policy now peer items count (d, s)).1.store

  take_in-wired :
      (b : Bundle) (d d' : Daemon) (s : S) (stored : Bool)
      → remember_bundle rt now b d ≡ ok (stored, d')
      → (s' : S) × (take_in rt policy now peer (obj (sender.bundle_to_wire b receiver t)) (d, s)
          ≡ ok (stored, d', s'))
  unfolding take_in
  take_in-wired b d d' s stored same = (told, rw (decodes b) (rw same refl))
    where
      told : S
      told =
          policy.on_bundle_received b peer
            (received_bundle_metadata (sender.bundle_to_wire b receiver t)) stored s

  first_taken :
      (v : Value) (rest : Items) (count : ℕ) (d d' : Daemon) (s s' : S) (stored : Bool)
      → take_in rt policy now peer v (d, s) ≡ ok (stored, d', s')
      → store_after (cons v rest) count d s
        ≡ store_after rest (if stored then suc count else count) d' s'
  unfolding take_all store_after
  first_taken v rest count d d' s s' stored e =
      ap
        (λ r.
          let (kept, d1, s1) = taken rt policy now peer r (d, s) in
          store_after rest (if kept then suc count else count) d1 s1)
        e

  -- Every bundle of a batch that is news to the receiver is held by it once the batch is stored.
  pub take_all-IsHeld :
      (bs : List Bundle) (count : ℕ) (d : Daemon) (s : S)
      → All (IsNews rt now d) bs
      → IsNodup (map (λ b. b.bundle_id) bs)
      → All
          (λ b.
            IsHeld rt b
              (take_all rt policy now peer (wire_items sender receiver t bs) count (d, s)).1.store)
          bs
  unfolding wire_items store_after
  take_all-IsHeld [] count d s news nodup = tt
  take_all-IsHeld (b ∷ bs) count d s (n, news) (differ, nodup) =
      let (stored, d', same, held, others) = remember_bundle-holds rt now b d n in
      let (s', taken_in) = take_in-wired b d d' s stored same in
      let rest = wire_items sender receiver t bs in
      let count' = if stored then suc count else count in
      subst (λ st. All (λ c. IsHeld rt c st) (b ∷ bs))
        (sym (first_taken _ rest count d d' s s' stored taken_in))
        (
          take_all-keeps rt (λ e. IsHeld rt b e.store) (λ c e _ new h. keep-IsHeld rt b c e new h)
              policy now peer (λ e h. h) rest count' d' s' held,
          take_all-IsHeld bs count' d' s'
              (still-IsNews rt now b.bundle_id d d' bs others differ news) nodup,
        )
