-- ===== src/Router/Remember.antt =====
-- `remember_bundle`, `_process_incoming_batch` and `_remember_control_bundle` (dtn/router.py). The
-- event log keeps what is said of a bundle; the text log is left out. The clock is read once per
-- batch, and the runtime's socket takes every event that is sent to it.
pub mod Batch
pub mod Vaccine
pub mod Once
pub mod Again
use meshpay.Base.{
  ℕ, suc, Bool, true, false, ◌&&◌, Option, none, some, String, ℤ, ◌==◌, if◌then◌else◌, List, [],
  ◌∷◌, contains,
}
use meshpay.Value.{
  Value, arr, obj, text, Items, nil, cons, Fields, end, get, get_default, Error, Result, ok, err,
  type_error, ◌>>=◌, as_fields, as_items,
}
use meshpay.Runtime.{Runtime}
use meshpay.Bundle.{Bundle, expired, add_hop, is_delivered_to, from_dict}
use meshpay.Store.{Store, truthy, is_transfer, has, save, mark_delivered}
use meshpay.Router.Policy.{Policy, received_bundle_metadata}

pub data Event : Type 0 where
  received : String → Event
  delivered : String → Event  -- the line `DELIVERED`
  delivery_event : Bundle → Event  -- what the runtime is sent
  created : String → Event
  inject_duplicate : String → Event
  not_decoded : Event
  control_socket_error : Error → Event

pub record Daemon : Type 0 where
  pub node : String
  pub has_delivery_socket : Bool
  pub store : Store
  pub events : List Event  -- the last one first

abbrev pub record_event : Event → Daemon → Daemon
record_event e d = record d { events = e ∷ d.events }

-- `order_id and order_id in self.store.confirmed_order_ids`, which holds texts only; Python cannot
-- hash a list or a dict.
unfoldable pub is_confirmed : Option Value → Store → Result Bool
is_confirmed none st = ok false
is_confirmed (some (text s)) st = ok (truthy (some (text s)) && contains s st.confirmed_order_ids)
is_confirmed (some (arr xs)) st = if truthy (some (arr xs)) then err type_error else ok false
is_confirmed (some (obj fs)) st = if truthy (some (obj fs)) then err type_error else ok false
is_confirmed (some _) st = ok false

-- The `order_id` that the payload names: `data["order_id"]`, or else `data["i"]`.
unfoldable pub named_order : Fields → Option Value
named_order contents =
    if truthy (get "order_id" contents) then get "order_id" contents else get "i" contents

-- A payment object whose order is confirmed. A `data` that is no dict has no `get`.
unfoldable pub is_superseded : Bundle → Store → Result Bool
is_superseded b st = of_payload b.payload
  where
    of_payload : Value → Result Bool
    of_payload (obj fs) =
        if is_transfer b
        then (do
          contents ← as_fields (get_default "data" (obj end) fs)
          is_confirmed (named_order contents) st)
        else ok false
    of_payload _ = ok false

-- `_emit_delivery_event`
unfoldable pub emit_delivery_event : Bundle → Daemon → Daemon
emit_delivery_event b d = of_payload b.payload
  where
    of_payload : Value → Daemon
    of_payload (obj _) = if d.has_delivery_socket then record_event (delivery_event b) d else d
    of_payload _ = d

-- The end of `remember_bundle`, for a bundle for this node.
unfoldable pub deliver : Bundle → Daemon → Daemon
deliver b d =
    let (new, st) = mark_delivered b d.store in
    if new
    then record_event (delivered b.bundle_id) (emit_delivery_event b (record d { store = st }))
    else record d { store = st }

module _ (rt : Runtime) where
  -- What `remember_bundle` does with a bundle that it takes.
  unfoldable pub keep : Bundle → Daemon → Daemon
  keep b d =
      let kept = add_hop d.node b in
      let stored =
        record_event (received b.bundle_id) (record d { store = save rt kept d.store }) in
      if is_delivered_to d.node kept then deliver kept stored else stored

  -- `remember_bundle`
  unfoldable pub remember_bundle : ℤ → Bundle → Daemon → Result (Bool × Daemon)
  remember_bundle now b d = if expired now b then ok (false, d) else do
    superseded ← is_superseded b d.store
    ok (
        if superseded
        then (false, d)
        else if has b.bundle_id d.store
        then (false, d)
        else (true, keep b d))

  module _ {S : Type 0} (policy : Policy S) (now : ℤ) (peer : String) where
    -- The `try` of the loop over a batch; whether the bundle was stored.
    unfoldable pub take_in : Value → Daemon × S → Result (Bool × Daemon × S)
    take_in bundle_data (d, s) = do
      fields ← as_fields bundle_data
      b ← from_dict rt fields
      (stored, d') ← remember_bundle now b d
      ok (stored, d', policy.on_bundle_received b peer (received_bundle_metadata fields) stored s)

    abbrev pub taken : Result (Bool × Daemon × S) → Daemon × S → Bool × Daemon × S
    taken (ok r) ds = r
    taken (err _) (d, s) = (false, record_event not_decoded d, s)

    -- The loop, with the bundles stored so far counted.
    unfoldable pub take_all : Items → ℕ → Daemon × S → ℕ × Daemon × S
    take_all nil count (d, s) = (count, d, s)
    take_all (cons bundle_data rest) count ds =
        let (stored, d, s) = taken (take_in bundle_data ds) ds in
        take_all rest (if stored then suc count else count) (d, s)

    -- `_process_incoming_batch`
    unfoldable pub process_incoming_batch : Fields → Daemon × S → Result (ℕ × Daemon × S)
    process_incoming_batch batch ds = do
      bundles ← as_items (get_default "bundles" (arr nil) batch)
      ok (take_all bundles 0 ds)

  -- `_remember_control_bundle`
  unfoldable pub remember_control_bundle : ℤ → Bundle → Daemon → Result (Bool × Daemon)
  remember_control_bundle now b d = do
    (stored, d') ← remember_bundle now b d
    ok (
      stored,
      record_event (if stored then created b.bundle_id else inject_duplicate b.bundle_id) d',
    )
