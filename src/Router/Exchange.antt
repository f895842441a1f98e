-- ===== src/Router/Exchange.antt =====
-- One exchange (dtn/router.py): `exchange_with_peer` at the node that connects and
-- `_handle_incoming_exchange` at the other, message by message, with the time at which each side acts.
-- The messages arrive as they were sent; byte counts and diagnostics are left out.
pub mod Batches
pub mod Delivery
pub mod Offers
pub mod Proper
pub mod Epidemic
use meshpay.Base.{ℕ, Bool, true, false, Option, none, some, String, ℤ, List, [], ◌∷◌, length}
use meshpay.Value.{
  Value, obj, arr, text, Items, nil, cons, Fields, end, field, get, get_default, item, Result, ok,
  err, type_error, ◌>>=◌, as_items, as_fields,
}
use meshpay.Runtime.{Runtime, as_text}
use meshpay.Transaction.Payload.{text_equals}
use meshpay.Bundle.{Bundle, text_items, items_text}
use meshpay.Store.{Store, snapshot}
use meshpay.Router.Policy.{Policy}
use meshpay.Router.Remember.{Daemon, process_incoming_batch}

-- A router: the daemon, and the state of its policy.
pub record Router (S : Type 0) : Type 0 where
  pub daemon : Daemon
  pub state : S

abbrev pub with_store : {S : Type 0} → Store → S → Router S → Router S
with_store st s r = record { daemon = record r.daemon { store = st }; state = s }

-- The opening summary.
unfoldable pub summary : String → List String → Fields → Fields
summary node ids routing = field "type" (text "summary") (
    field "node" (text node)
      (field "ids" (arr (text_items ids)) (field "routing" (obj routing) end)))

-- `set(request["ids"])`, of texts.
unfoldable pub peer_ids_of : Fields → Result (List String)
peer_ids_of request = do ids ← item "ids" request; items ← as_items ids; items_text items

module _ {S : Type 0} (policy : Policy S) where
  -- The list in `_bundles_to_batch`.
  unfoldable pub wire_items : String → S → List Bundle → Items
  wire_items peer s [] = nil
  wire_items peer s (b ∷ bs) = cons (obj (policy.bundle_to_wire b peer s)) (wire_items peer s bs)

  -- `_bundles_to_batch`
  unfoldable pub bundles_to_batch : String → S → List Bundle → Fields
  bundles_to_batch peer s bs =
      field "type" (text "bundle_batch") (field "bundles" (arr (wire_items peer s bs)) end)

  -- `exchange_with_peer`, to its opening summary.
  unfoldable pub open_exchange : ℤ → Router S → Fields × Router S
  open_exchange now r =
      let ((_, local_ids), st) = snapshot now r.daemon.store in
      let (routing, s) = policy.summary_metadata now r.state in
      (summary r.daemon.node local_ids routing, with_store st s r)

  -- What the server sends, and for each part of it the router that goes on.
  pub record Reply : Type 0 where
    pub peer_node : String
    pub own_summary : Fields
    pub batch : Fields
    pub sent : List Bundle
    pub router : Router S

  -- `_handle_incoming_exchange`, from a summary to the reply.
  unfoldable pub reply_to_summary : ℤ → Fields → Router S → Result Reply
  reply_to_summary now request r = do
    node ← item "node" request
    peer_node ← as_text node
    peer_ids ← peer_ids_of request
    ok (reply peer_node peer_ids)
    where
      reply : String → List String → Reply
      reply peer_node peer_ids =
          let s = policy.observe_peer_summary now peer_node request r.state in
          let ((local_bundles, local_ids), st) = snapshot now r.daemon.store in
          let ((bundles, s1), st1) =
            policy.select_bundles_for_peer now peer_ids peer_node (some local_bundles) s st in
          let (routing, s2) = policy.summary_metadata now s1 in
          record {
            peer_node = peer_node;
            own_summary = summary r.daemon.node local_ids routing;
            batch = bundles_to_batch peer_node s2 bundles;
            sent = bundles;
            router = with_store st1 s2 r;
          }

  module _ (rt : Runtime) where
    -- What the client sends back, and how many bundles it stored.
    pub record Answer : Type 0 where
      pub received_count : ℕ
      pub answer_batch : Fields
      pub answer_sent : List Bundle
      pub answer_router : Router S

    -- `exchange_with_peer`, from the reply to its own batch, which is selected after the server's batch
    -- is stored.
    unfoldable pub answer_reply : ℤ → String → Fields → Fields → Router S → Result Answer
    answer_reply now peer_node response batch r = do
      peer_ids ← peer_ids_of response
      (count, d, s) ←
          process_incoming_batch rt policy now peer_node batch
            (r.daemon, policy.observe_peer_summary now peer_node response r.state)
      ok (answer peer_ids count d s)
      where
        answer : List String → ℕ → Daemon → S → Answer
        answer peer_ids count d s =
            let ((bundles, s1), st) =
              policy.select_bundles_for_peer now peer_ids peer_node none s d.store in
            record {
              received_count = count;
              answer_batch = bundles_to_batch peer_node s1 bundles;
              answer_sent = bundles;
              answer_router = record { daemon = record d { store = st }; state = s1 };
            }

    -- `_handle_incoming_exchange`, from the client's batch on.
    unfoldable pub finish_incoming : ℤ → String → Fields → Router S → Result (ℕ × Router S)
    finish_incoming now peer_node batch r = do
      (count, d, s) ← process_incoming_batch rt policy now peer_node batch (r.daemon, r.state)
      ok (count, record { daemon = d; state = s })

-- The end of an exchange without a failure, with what each side sent.
pub record Exchanged (S T : Type 0) : Type 0 where
  pub client : Router S
  pub server : Router T
  pub by_server : List Bundle
  pub by_client : List Bundle
  pub stored_by_client : ℕ
  pub stored_by_server : ℕ

-- The whole exchange; the client connects to the server at its name.
unfoldable pub exchange :
    {S T : Type 0}
    → Runtime
    → Policy S
    → Policy T
    → ℤ
    → Router S
    → Router T
    → Result (Exchanged S T)
exchange rt policy_a policy_b now a b = do
  let (opening, a1) = open_exchange policy_a now a
  reply ← reply_to_summary policy_b now opening b
  answer ← answer_reply policy_a rt now b.daemon.node reply.own_summary reply.batch a1
  (count, b') ← finish_incoming policy_b rt now reply.peer_node answer.answer_batch reply.router
  ok (record {
    client = answer.answer_router;
    server = b';
    by_server = reply.sent;
    by_client = answer.answer_sent;
    stored_by_client = answer.received_count;
    stored_by_server = count;
  })
