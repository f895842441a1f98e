-- ===== src/Router/Discovery/Nonces.antt =====
-- The dict of nonces stays within its cap.
use meshpay.Base.{
  Option, ℕ, zero, suc, ◌+◌, ◌-◌, ◌≤◌, ◌<◌, ltb, ◌≡◌, refl, none, some, String, ◌==◌, eq_iff,
  eq_refl, if◌then◌else◌, List, [], ◌∷◌, length, take, Dict, insert, erase, keys, arith, Bool-cases,
  inl, inr,
}
use meshpay.Store.{erase_all}
use meshpay.Router.Attempts.{Config, Peer}
use mathlib.Core.Option.{get_or}
use meshpay.Router.Discovery.{
  Neighbours, Message, nonce_dict_max, nonce_dict_evict_to, insert_by_time, sort_by_time,
  cap_nonce_dict, on_discover, on_peer, remember_mesh_reachable_peer, handle_discovery_message,
}

occurrences : String → List String → ℕ
occurrences x [] = 0
occurrences x (y ∷ ys) = (if y == x then 1 else 0) + occurrences x ys

occurrences-take :
    (x : String) (n : ℕ) (xs : List String) → occurrences x (take n xs) ≤ occurrences x xs
unfolding occurrences
occurrences-take x zero xs = omega arith
occurrences-take x (suc n) [] = omega arith
occurrences-take x (suc n) (y ∷ ys) = omega (arith, occurrences-take x n ys)

occurrences-insert_by_time :
    (x : String) (e : String × ℕ) (d : Dict ℕ)
    → occurrences x (keys (insert_by_time e d)) ≡ occurrences x (keys (e ∷ d))
unfolding occurrences insert_by_time
occurrences-insert_by_time x e [] = refl
occurrences-insert_by_time x e (f ∷ fs) = ground (arith, occurrences-insert_by_time x e fs)

occurrences-sort_by_time :
    (x : String) (d : Dict ℕ) → occurrences x (keys (sort_by_time d)) ≡ occurrences x (keys d)
unfolding occurrences sort_by_time
occurrences-sort_by_time x [] = refl
occurrences-sort_by_time x (e ∷ es) =
    omega (arith, occurrences-insert_by_time x e (sort_by_time es), occurrences-sort_by_time x es)

length-insert_by_time :
    (e : String × ℕ) (d : Dict ℕ) → length (keys (insert_by_time e d)) ≡ suc (length (keys d))
unfolding insert_by_time
length-insert_by_time e [] = refl
length-insert_by_time e (f ∷ fs) = ground (arith, length-insert_by_time e fs)

length-sort_by_time : (d : Dict ℕ) → length (keys (sort_by_time d)) ≡ length d
unfolding sort_by_time
length-sort_by_time [] = refl
length-sort_by_time (e ∷ es) =
    omega (arith, length-insert_by_time e (sort_by_time es), length-sort_by_time es)

length-erase :
    (k : String) (d : Dict ℕ) → 0 < occurrences k (keys d) → suc (length (erase k d)) ≡ length d
unfolding occurrences
length-erase k [] h = absurd (omega arith)
length-erase k ((j, w) ∷ d) h = ground (arith, length-erase k d)

occurrences-erase :
    (x k : String) (d : Dict ℕ)
    → 0 < occurrences k (keys d)
    → (if k == x then 1 else 0) + occurrences x (keys (erase k d)) ≡ occurrences x (keys d)
unfolding occurrences
occurrences-erase x k [] h = absurd (omega arith)
occurrences-erase x k ((j, w) ∷ d) h =
    ground (arith, eq_iff j k, eq_iff j x, eq_iff k x, occurrences-erase x k d)

length-erase_all :
    (ks : List String) (d : Dict ℕ)
    → ((x : String) → occurrences x ks ≤ occurrences x (keys d))
    → length (erase_all ks d) + length ks ≡ length d
unfolding occurrences erase_all
length-erase_all [] d h = omega arith
length-erase_all (k ∷ ks) d h =
    let here : 0 < occurrences k (keys d) = ground (arith, h k, eq_refl k) in
    let rest =
      length-erase_all ks (erase k d) λ x. omega (arith, h x, occurrences-erase x k d here) in
    omega (arith, rest, length-erase k d here)

length-take : (n : ℕ) (xs : List String) → n ≤ length xs → length (take n xs) ≡ n
length-take zero xs h = refl
length-take (suc n) [] h = absurd (omega arith)
length-take (suc n) (x ∷ xs) h = omega (arith, length-take n xs (omega arith))

-- A dict that has reached the cap is cut to half of it.
length-cap_nonce_dict :
    (seen : Dict ℕ)
    → length (cap_nonce_dict seen)
      ≡ (if ltb (length seen) nonce_dict_max then length seen else nonce_dict_evict_to)
unfolding cap_nonce_dict
length-cap_nonce_dict seen = elim (Bool-cases (ltb (length seen) nonce_dict_max)) [
  | inl few ↦ rw (cap_nonce_dict, few) refl
  | inr many ↦
      let oldest = keys (sort_by_time seen) in
      let evicted = take (length oldest - nonce_dict_evict_to) oldest in
      let left = length-erase_all evicted seen λ x. omega (
        arith,
        occurrences-take x (length oldest - nonce_dict_evict_to) oldest,
        occurrences-sort_by_time x seen,
      ) in
      let size = length-take (length oldest - nonce_dict_evict_to) oldest (omega arith) in
      rw (cap_nonce_dict, many) (ground (arith, left, size, length-sort_by_time seen, many))
]

length-insert : (k : String) (v : ℕ) (d : Dict ℕ) → length (insert k v d) ≤ suc (length d)
length-insert k v [] = omega arith
length-insert k v ((j, w) ∷ d) = ground (arith, length-insert k v d)

abbrev IsCapped : Neighbours → Type 0
IsCapped s = length s.seen_discovery_nonces ≤ nonce_dict_max

on_discover-IsCapped :
    (now : ℕ) (peer_ip : String) (nonce : Option String) (s : Neighbours)
    → IsCapped s
    → IsCapped (on_discover now peer_ip nonce s)
unfolding on_discover
on_discover-IsCapped now peer_ip none s h = h
on_discover-IsCapped now peer_ip (some nonce) s h = ground (
  arith,
  h,
  length-cap_nonce_dict s.seen_discovery_nonces,
  length-insert nonce now (cap_nonce_dict s.seen_discovery_nonces),
)

on_peer-IsCapped :
    (c : Config) (now : ℕ) (k : Peer) (s : Neighbours) → IsCapped s → IsCapped (on_peer c now k s)
unfolding on_peer remember_mesh_reachable_peer
on_peer-IsCapped c now k s h = ground (arith, h)

-- Whatever datagrams arrive, `_seen_discovery_nonces` never holds more than `_NONCE_DICT_MAX` entries:
-- where it does not before a datagram, it does not after it.
pub handle_discovery_message-bound :
    (c : Config) (now : ℕ) (peer_ip : String) (m : Message) (s : Neighbours)
    → length s.seen_discovery_nonces ≤ nonce_dict_max
    → length (handle_discovery_message c now peer_ip m s).seen_discovery_nonces ≤ nonce_dict_max
unfolding handle_discovery_message
handle_discovery_message-bound c now peer_ip m s h = by_node m.node refl
  where
    by_node :
        (o : Option String) → m.node ≡ o → IsCapped (handle_discovery_message c now peer_ip m s)
    by_node none e = rw (handle_discovery_message, e) h
    by_node (some node) e =
        let k : Peer = record {
          peer_node = node;
          peer_ip = peer_ip;
          peer_port = get_or m.exchange_port c.exchange_port;
        } in
        rw (handle_discovery_message, e)
          (ground
            (arith, on_discover-IsCapped now peer_ip m.nonce s h, on_peer-IsCapped c now k s h, h))
