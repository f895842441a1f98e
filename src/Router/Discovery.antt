-- ===== src/Router/Discovery.antt =====
-- Neighbour discovery (dtn/router.py): the nonces that were seen, and the datagrams of other nodes. A
-- datagram has the fields that `_send_discovery_request` and `_send_peer_reply` give it; what is sent
-- is a list of actions.
pub mod Nonces
pub mod Initiator
use meshpay.Base.{
  ℕ, suc, ◌+◌, ◌-◌, ◌*◌, max, ltb, Bool, true, false, not, ◌&&◌, Option, none, some, String, ◌==◌,
  is_before, if◌then◌else◌, List, [], ◌∷◌, length, take, Dict, has_key, insert, erase, keys,
}
use mathlib.Core.Option.{get_or}
use meshpay.Store.{erase_all}
use meshpay.Router.Attempts.{Config, Peer, Attempts, reset_peer_backoff}

abbrev pub nonce_dict_max : ℕ
nonce_dict_max = 1000

abbrev pub nonce_dict_evict_to : ℕ
nonce_dict_evict_to = 500

pub data Action : Type 0 where
  send_peer_reply : String → Option String → Action
  start_exchange : Peer → Bool → Action

-- `mesh_reachable_peers` keeps the address, the port and the time at which a peer was last seen.
pub record Reachable : Type 0 where
  pub peer_ip : String
  pub peer_port : ℕ
  pub seen : ℕ

pub record Neighbours : Type 0 where
  pub seen_discovery_nonces : Dict ℕ
  pub peers : Dict String
  pub mesh_reachable_peers : Dict Reachable
  pub attempts : Attempts
  pub actions : List Action  -- the last one first

pub record Message : Type 0 where
  pub type : String
  pub node : Option String
  pub exchange_port : Option ℕ
  pub nonce : Option String

-- `sorted(nonces, key=nonces.__getitem__)`: the sort is stable.
unfoldable pub insert_by_time : String × ℕ → Dict ℕ → Dict ℕ
insert_by_time e [] = e ∷ []
insert_by_time e (f ∷ fs) = if ltb f.1 e.1 then f ∷ insert_by_time e fs else e ∷ f ∷ fs

unfoldable pub sort_by_time : Dict ℕ → Dict ℕ
sort_by_time [] = []
sort_by_time (e ∷ es) = insert_by_time e (sort_by_time es)

-- `_cap_nonce_dict`
unfoldable pub cap_nonce_dict : Dict ℕ → Dict ℕ
cap_nonce_dict seen =
    if ltb (length seen) nonce_dict_max
    then seen
    else let oldest = keys (sort_by_time seen) in
      erase_all (take (length oldest - nonce_dict_evict_to) oldest) seen

-- `_prune_seen_discovery_nonces`; `now - t > ttl`, without the difference.
unfoldable pub prune_older : ℕ → ℕ → Dict ℕ → Dict ℕ
prune_older ttl now [] = []
prune_older ttl now ((n, t) ∷ rest) =
    if ltb (t + ttl) now then prune_older ttl now rest else (n, t) ∷ prune_older ttl now rest

unfoldable pub prune_seen_discovery_nonces : Config → ℕ → Dict ℕ → Dict ℕ
prune_seen_discovery_nonces c now seen =
    prune_older (max (c.discovery_interval * 5) 10_000_000) now seen

-- `_remember_mesh_reachable_peer`, without its log.
unfoldable pub remember_mesh_reachable_peer : ℕ → Peer → Neighbours → Neighbours
remember_mesh_reachable_peer now k s = record s {
  peers = insert k.peer_node k.peer_ip s.peers;
  mesh_reachable_peers =
      insert k.peer_node (record { peer_ip = k.peer_ip; peer_port = k.peer_port; seen = now })
        s.mesh_reachable_peers;
}

abbrev pub act : Action → Neighbours → Neighbours
act a s = record s { actions = a ∷ s.actions }

-- The branch for "discover". An empty nonce counts as none.
unfoldable pub on_discover : ℕ → String → Option String → Neighbours → Neighbours
on_discover now peer_ip none s = act (send_peer_reply peer_ip none) s
on_discover now peer_ip (some nonce) s =
    if nonce == ""
    then act (send_peer_reply peer_ip (some nonce)) s
    else if has_key nonce s.seen_discovery_nonces
    then s
    else act (send_peer_reply peer_ip (some nonce)) (record s {
      seen_discovery_nonces = insert nonce now (cap_nonce_dict s.seen_discovery_nonces);
    })

-- The branch for "peer".
unfoldable pub on_peer : Config → ℕ → Peer → Neighbours → Neighbours
on_peer c now k s =
    if c.is_mesh
    then remember_mesh_reachable_peer now k s
    else let known = record s {
      peers = insert k.peer_node k.peer_ip s.peers;
      attempts = reset_peer_backoff k s.attempts;
    } in
      if is_before c.node k.peer_node then act (start_exchange k true) known else known

-- `_handle_discovery_message`, from the address `peer_ip`.
unfoldable pub handle_discovery_message : Config → ℕ → String → Message → Neighbours → Neighbours
handle_discovery_message c now peer_ip m s = elim m.node [
  | none ↦ s
  | some node ↦
      if node == ""
      then s
      else if node == c.node
      then s
      else if m.type == "discover"
      then on_discover now peer_ip m.nonce s
      else if m.type == "peer"
      then on_peer c now
          (record {
            peer_node = node;
            peer_ip = peer_ip;
            peer_port = get_or m.exchange_port c.exchange_port;
          })
          s
      else s
]
