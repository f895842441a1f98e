-- ===== src/Router/Exchange/Epidemic.antt =====
-- An exchange of two epidemic routers (dtn/epidemic.py).
use meshpay.Base.{
  ℕ, ◌≡◌, refl, false, String, ℤ, List, [], ◌∷◌, All, keys, inl, inr, Dict, Bool, Bool-cases, take,
  filter, not, contains, ap, sym,
}
use meshpay.Value.{Items, Fields, ok}
use meshpay.Runtime.{Runtime}
use meshpay.Bundle.{Bundle, expired}
use meshpay.Bundle.RoundTrip.{items_text-text_items, bundle-from_dict-to_dict}
use meshpay.Store.{Store, prune_expired, delete_where, drop_where, without_ids, all, snapshot}
use meshpay.Spray.{select_epidemic}
use meshpay.Router.Policy.{Policy, base_policy}
use meshpay.Router.Remember.{Daemon, take_all, process_incoming_batch}
use meshpay.Store.Kept.{lookup-drop_where}
use meshpay.Router.Exchange.{
  Router, Exchanged, summary, peer_ids_of, wire_items, bundles_to_batch, open_exchange,
  reply_to_summary, answer_reply, finish_incoming, exchange,
}
use meshpay.Router.Exchange.Delivery.{IsHeld}
use meshpay.Router.Exchange.Batches.{take_all-IsHeld}
use meshpay.Router.Remember.Batch.{take_all-keeps}
use meshpay.Router.Exchange.Proper.{keep-IsProper, drop_where-IsProper}
use meshpay.Router.Exchange.Offers.{offered, IsProper, offered-once, offered-fresh, offered-IsNews}

-- `EpidemicRouter` overrides one hook, and keeps no state of its own.
unfoldable pub epidemic : ℕ → Policy (Unit {0})
unfolding base_policy
epidemic limit = record base_policy {
  select_bundles_for_peer = λ now known peer local s st.
      let (bundles, st') = select_epidemic now limit known local st in ((bundles, s), st');
}

peer_ids_of-summary :
    (node : String) (ids : List String) (routing : Fields)
    → peer_ids_of (summary node ids routing) ≡ ok ids
unfolding peer_ids_of summary
peer_ids_of-summary node ids routing = items_text-text_items ids

drop_where_again :
    (p : Bundle → Bool) (d : Dict Bundle) → drop_where p (drop_where p d) ≡ drop_where p d
unfolding drop_where
drop_where_again p [] = refl
drop_where_again p ((id, b) ∷ d) = elim (Bool-cases (p b)) [
  | inl hit ↦ rw hit (drop_where_again p d)
  | inr miss ↦ rw miss (rw miss (ap (λ rest. (id, b) ∷ rest) (drop_where_again p d)))
]

-- Pruning what has expired keeps a bundle that has not.
prune_expired-IsHeld :
    (rt : Runtime) (now : ℤ) (b : Bundle) (st : Store)
    → expired now b ≡ false
    → IsHeld rt b st
    → IsHeld rt b (prune_expired now st)
unfolding prune_expired delete_where expired
prune_expired-IsHeld rt now b st fresh (inl (hops, there)) =
    inl (hops, lookup-drop_where (expired now) b.bundle_id _ st.bundles there fresh)
prune_expired-IsHeld rt now b st fresh (inr settled) = inr settled

abbrev pub EpidemicRouter : Type 0
EpidemicRouter = Router (Unit {0})

module _ (rt : Runtime) (now : ℤ) (limit_a limit_b : ℕ) (a b : EpidemicRouter) where
  abbrev pruned : EpidemicRouter → Daemon
  pruned r = record r.daemon { store = prune_expired now r.daemon.store }

  abbrev pub ids_of : EpidemicRouter → List String
  ids_of r = keys (prune_expired now r.daemon.store).bundles

  abbrev to_client : List Bundle
  to_client = offered now limit_b (ids_of a) b.daemon.store

  abbrev at_client : ℕ × Daemon × Unit {0}
  at_client =
      take_all rt (epidemic limit_a) now b.daemon.node
        (wire_items (epidemic limit_b) a.daemon.node b.state to_client) 0 (pruned a, a.state)

  abbrev to_server : List Bundle
  to_server = offered now limit_a (ids_of b) at_client.1.store

  abbrev at_server : ℕ × Daemon × Unit {0}
  at_server =
      take_all rt (epidemic limit_b) now a.daemon.node
        (wire_items (epidemic limit_a) b.daemon.node at_client.2 to_server) 0 (pruned b, b.state)

  abbrev end_of_exchange : Exchanged (Unit {0}) (Unit {0})
  end_of_exchange = record {
    client = record {
      daemon = record at_client.1 { store = prune_expired now at_client.1.store };
      state = at_client.2;
    };
    server = record { daemon = at_server.1; state = at_server.2 };
    by_server = to_client;
    by_client = to_server;
    stored_by_client = at_client.0;
    stored_by_server = at_server.0;
  }

  exchange-end : exchange rt (epidemic limit_a) (epidemic limit_b) now a b ≡ ok end_of_exchange
  unfolding exchange open_exchange reply_to_summary answer_reply finish_incoming epidemic
      base_policy snapshot all select_epidemic summary peer_ids_of bundles_to_batch
      process_incoming_batch
  exchange-end = rw (items_text-text_items (ids_of a)) (rw (items_text-text_items (ids_of b)) refl)

  abbrev offers : ℕ → List String → Dict Bundle → List Bundle
  offers limit known d =
      take limit (filter (λ x. not (contains x.bundle_id known)) (without_ids [] d))

  -- An exchange of two epidemic routers whose stores are well-formed comes to its end. The server sends
  -- the client what it has, unexpired, and the client lacked, up to its limit; the client answers
  -- with what it has then, unexpired, and the server lacked when it replied, up to its own limit. In
  -- the end each holds all of what it was sent, but for payment objects of orders that are confirmed,
  -- and both stores are well-formed.
  pub exchange-holds :
      IsProper a.daemon.store.bundles
      → IsProper b.daemon.store.bundles
      → (r : Exchanged (Unit {0}) (Unit {0})) × (exchange rt
            (epidemic limit_a)
            (epidemic limit_b)
            now
            a
            b
          ≡ ok r)
        × (r.by_server ≡ offered now limit_b (ids_of a) b.daemon.store)
        × (r.by_client ≡ offered now limit_a (ids_of b) r.client.daemon.store)
        × All (λ x. IsHeld rt x r.client.daemon.store) r.by_server
        × All (λ x. IsHeld rt x r.server.daemon.store) r.by_client
        × IsProper r.client.daemon.store.bundles
        × IsProper r.server.daemon.store.bundles
  unfolding epidemic base_policy prune_expired delete_where
  exchange-holds proper_a proper_b =
      let proper_client : IsProper at_client.1.store.bundles =
        still_proper limit_a b.daemon.node _ (pruned a) a.state
          (drop_where-IsProper (expired now) a.daemon.store.bundles proper_a) in
      (
        end_of_exchange,
        exchange-end,
        refl,
        sym (
            ap (offers limit_a (ids_of b))
              (drop_where_again (expired now) at_client.1.store.bundles)),
        all_pruned to_client at_client.1.store
            (offered-fresh rt now limit_b b.daemon.store proper_b (ids_of a))
            (take_all-IsHeld rt (epidemic limit_a) (epidemic limit_b) now b.daemon.node
              a.daemon.node b.state (bundle-from_dict-to_dict rt) to_client 0 (pruned a) a.state
              (offered-IsNews rt now limit_b b.daemon.store proper_b (pruned a))
              (offered-once rt now limit_b b.daemon.store proper_b (ids_of a))),
        take_all-IsHeld rt (epidemic limit_b) (epidemic limit_a) now a.daemon.node b.daemon.node
            at_client.2 (bundle-from_dict-to_dict rt) to_server 0 (pruned b) b.state
            (offered-IsNews rt now limit_a at_client.1.store proper_client (pruned b))
            (offered-once rt now limit_a at_client.1.store proper_client (ids_of b)),
        drop_where-IsProper (expired now) at_client.1.store.bundles proper_client,
        still_proper limit_b a.daemon.node _ (pruned b) b.state
            (drop_where-IsProper (expired now) b.daemon.store.bundles proper_b),
      )
    where
      still_proper :
          (limit : ℕ) (peer : String) (items : Items) (d : Daemon) (s : Unit {0})
          → IsProper d.store.bundles
          → IsProper (take_all rt (epidemic limit) now peer items 0 (d, s)).1.store.bundles
      still_proper limit peer items d s h =
          take_all-keeps rt (λ e. IsProper e.store.bundles)
            (λ c e passed _ p. keep-IsProper rt c e passed p) (epidemic limit) now peer (λ e p. p)
            items 0 d s h

      all_pruned :
          (bs : List Bundle) (st : Store)
          → All (λ x. expired now x ≡ false) bs
          → All (λ x. IsHeld rt x st) bs
          → All (λ x. IsHeld rt x (prune_expired now st)) bs
      all_pruned [] st f h = tt
      all_pruned (x ∷ xs) st (f, fs) (h, hs) =
          (prune_expired-IsHeld rt now x st f h, all_pruned xs st fs hs)
