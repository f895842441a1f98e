-- ===== src/Examples/Daemons.antt =====
-- A daemon that gets bundles, and two epidemic routers.
use meshpay.Base.{
  ℕ, ◌≡◌, refl, true, false, some, none, String, [], ◌∷◌, All, contains, keys, pos, arith, List,
  ◌≤◌, contains-false,
}
use meshpay.Value.{text, obj, arr, nil, cons, Fields, end, field, ok}
use meshpay.Bundle.{Bundle, expired, to_dict}
use meshpay.Store.{Store, payload_type, is_transfer}
use meshpay.Router.Policy.{base_policy}
use meshpay.Router.Remember.{
  Daemon, is_confirmed, named_order, is_superseded, process_incoming_batch,
}
use meshpay.Router.Remember.Batch.{daemon_after}
use meshpay.Router.Remember.Vaccine.{IsVaccinated, process_incoming_batch-IsVaccinated}
use meshpay.Router.Remember.Once.{sent_ids, IsOnce, process_incoming_batch-IsOnce}
use meshpay.Router.Exchange.{Exchanged, exchange}
use meshpay.Router.Exchange.Delivery.{IsHeld, IsNews}
use meshpay.Router.Exchange.Offers.{offered, IsProper}
use meshpay.Router.Exchange.Epidemic.{epidemic, EpidemicRouter, ids_of, exchange-holds}
use meshpay.Router.Control.{inject_batch_ack, handle_control_request}
use meshpay.Router.Control.Inject.{batch_request, handle_control_request-injects}
use meshpay.Examples.{python}
use meshpay.Examples.Bundles.{order_bundle, confirmation_bundle, store}

abbrev daemon : Daemon
daemon = record { node = "bob"; has_delivery_socket = true; store = store; events = [] }

-- A second bundle, and the first one again.
abbrev batch : Fields
batch = field "type" (text "bundle_batch") (
    field "bundles"
      (arr (cons (obj (to_dict confirmation_bundle)) (cons (obj (to_dict order_bundle)) nil))) end)

nothing_confirmed : IsVaccinated store
unfolding IsVaccinated
nothing_confirmed = tt

process_incoming_batch-IsVaccinated_example :
    IsVaccinated
      (daemon_after
        (process_incoming_batch python (base_policy {S = Unit {0}}) (pos 20) "c" batch (daemon, tt))
        daemon).store
process_incoming_batch-IsVaccinated_example =
    process_incoming_batch-IsVaccinated python base_policy (pos 20) "c" batch daemon tt
      nothing_confirmed

nothing_sent : IsOnce daemon
unfolding sent_ids
nothing_sent = record { different = tt; noted = tt }

process_incoming_batch-IsOnce_example : IsOnce (
    daemon_after
      (process_incoming_batch python (base_policy {S = Unit {0}}) (pos 20) "c" batch (daemon, tt))
      daemon)
process_incoming_batch-IsOnce_example =
    process_incoming_batch-IsOnce python base_policy (pos 20) "c" batch daemon tt nothing_sent

abbrev server : EpidemicRouter
server = record { daemon = daemon; state = tt }

abbrev empty_store : Store
empty_store = record store { bundles = []; bundle_order_ids = [] }

abbrev client : EpidemicRouter
client = record {
  daemon = record { node = "c"; has_delivery_socket = false; store = empty_store; events = [] };
  state = tt;
}

server-IsProper : IsProper store.bundles
unfolding is_superseded is_transfer payload_type is_confirmed named_order
server-IsProper = record {
  keyed = (refl, tt);
  once = (tt, tt);
  orderly = ((empty_store, refl), tt);
}

client-IsProper : IsProper empty_store.bundles
client-IsProper = record { keyed = tt; once = tt; orderly = tt }

exchange-holds_example :
    (r : Exchanged (Unit {0}) (Unit {0})) × (exchange python
        (epidemic 6)
        (epidemic 6)
        (pos 20)
        client
        server
      ≡ ok r)
    × (r.by_server ≡ offered (pos 20) 6 (ids_of python (pos 20) 6 6 client server client) store)
    × (r.by_client
        ≡ offered
            (pos 20)
            6
            (ids_of python (pos 20) 6 6 client server server)
            r.client.daemon.store)
    × All (λ x. IsHeld python x r.client.daemon.store) r.by_server
    × All (λ x. IsHeld python x r.server.daemon.store) r.by_client
    × IsProper r.client.daemon.store.bundles
    × IsProper r.server.daemon.store.bundles
exchange-holds_example =
    exchange-holds python (pos 20) 6 6 client server client-IsProper server-IsProper

confirmation-IsNews : IsNews python (pos 20) client.daemon confirmation_bundle
unfolding expired meshpay.Base.◌+ℤ◌ is_superseded is_transfer payload_type
confirmation-IsNews = record { fresh = refl; orderly = (empty_store, refl); missing = refl }

order-IsNews : IsNews python (pos 20) client.daemon order_bundle
unfolding expired meshpay.Base.◌+ℤ◌ is_superseded is_transfer payload_type is_confirmed named_order
order-IsNews = record { fresh = refl; orderly = (empty_store, refl); missing = refl }

abbrev injected : List Bundle
injected = confirmation_bundle ∷ order_bundle ∷ []

handle_control_request-injects_example :
    (stored : ℕ) × (d' : Daemon) × (handle_control_request python
        (pos 20)
        (λ _. "ValueError()")
        (batch_request injected)
        client.daemon
      ≡ (some (inject_batch_ack stored 2 ("b2" ∷ "b1" ∷ [])), d'))
    × (stored ≤ 2)
    × All (λ b. IsHeld python b d'.store) injected
handle_control_request-injects_example =
    handle_control_request-injects python (pos 20) (λ _. "ValueError()") injected client.daemon
      (confirmation-IsNews, (order-IsNews, tt)) (contains-false "b2" ("b1" ∷ []) refl, (tt, tt))
