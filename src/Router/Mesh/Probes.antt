-- ===== src/Router/Mesh/Probes.antt =====
-- Which peers `_select_mesh_probe_peers` selects.
use meshpay.Base.{
  ℕ, zero, suc, ◌%◌, ltb, ◌≡◌, ◌≢◌, refl, sym, Bool, true, not, Option, none, some, String, ◌==◌,
  eq_iff, eq_refl, sort_names, unique, sort_names-IsNodup, unique-IsNodup, All-sort_names,
  All-unique, contains-false, IsNodup, List, [], ◌∷◌, ◌++◌, contains, filter, All, All-filter,
  All-filter_self, length, arith, Bool-cases, inl, inr,
}
use meshpay.Router.Attempts.{Config}
use meshpay.Router.Mesh.{
  Mesh, mesh_peer_ttl, recently_reachable, at_index, add_probe, probe_loop, select_mesh_probe_peers,
}

-- Names that differ, none of them the node's, and all of them static peers.
pub record AreProbes (node : String) (static_peers xs : List String) : Type 0 where
  pub different : IsNodup xs
  pub others : All (λ x. x ≢ node) xs
  pub static : All (λ x. contains x static_peers ≡ true) xs

All-append {κ} :
    (P : String → Type κ) (xs : List String) (x : String) → All P xs → P x → All P (xs ++ (x ∷ []))
All-append P [] x h px = (px, tt)
All-append P (y ∷ ys) x (py, h) px = (py, All-append P ys x h px)

append-IsNodup :
    (xs : List String) (x : String) → IsNodup xs → All (λ y. y ≢ x) xs → IsNodup (xs ++ (x ∷ []))
append-IsNodup [] x d new = (tt, tt)
append-IsNodup (y ∷ ys) x (n, d) (differ, new) =
    (All-append (λ z. z ≢ y) ys x n (λ same. differ (sym same)), append-IsNodup ys x d new)

filter-IsNodup : (p : String → Bool) (xs : List String) → IsNodup xs → IsNodup (filter p xs)
filter-IsNodup p [] d = tt
filter-IsNodup p (x ∷ xs) (n, d) = elim (Bool-cases (p x)) [
  | inl e ↦ rw e (All-filter (λ y. y ≢ x) p xs n, filter-IsNodup p xs d)
  | inr e ↦ rw e (filter-IsNodup p xs d)
]

contains_self : (xs : List String) → All (λ x. contains x xs ≡ true) xs
contains_self [] = tt
contains_self (x ∷ xs) = (ground (arith, eq_refl x), widen xs (contains_self xs))
  where
    widen :
        (ys : List String)
        → All (λ y. contains y xs ≡ true) ys
        → All (λ y. contains y (x ∷ xs) ≡ true) ys
    widen [] h = tt
    widen (y ∷ ys) (h, hs) = (ground (arith, h), widen ys hs)

All-at_index {κ} :
    (P : String → Type κ) (n : ℕ) (xs : List String) {x : String}
    → All P xs
    → at_index n xs ≡ some x
    → P x
All-at_index P n [] h e = absurd (cc)
All-at_index P zero (x ∷ xs) (p, h) e = let same : x ≡ _ = cc in rw same at p
All-at_index P (suc n) (x ∷ xs) (p, h) e = All-at_index P n xs h e

module _ (node : String) (static_peers all_known : List String)
    (known : All (λ x. contains x static_peers ≡ true) all_known) where
  add_probe-AreProbes :
      (peer : String) (xs : List String)
      → contains peer static_peers ≡ true
      → AreProbes node static_peers xs
      → AreProbes node static_peers (add_probe node (some peer) xs)
  unfolding add_probe
  add_probe-AreProbes peer xs static h = elim (Bool-cases (contains peer xs)) [
    | inl old ↦ rw old h
    | inr new ↦ elim (Bool-cases (peer == node)) [
      | inl self ↦ rw (new, self) h
      | inr other ↦
          rw (new, other)
            (record {
              different = append-IsNodup xs peer h.different (contains-false peer xs new);
              others =
                  All-append (λ x. x ≢ node) xs peer h.others (ground (arith, eq_iff peer node));
              static = All-append (λ x. contains x static_peers ≡ true) xs peer h.static static;
            })
    ]
  ]

  probed :
      (peer : Option String) (n : ℕ) (xs : List String)
      → at_index n all_known ≡ peer
      → AreProbes node static_peers xs
      → AreProbes node static_peers (add_probe node peer xs)
  unfolding add_probe
  probed none n xs e h = h
  probed (some peer) n xs e h =
      add_probe-AreProbes peer xs
        (All-at_index (λ x. contains x static_peers ≡ true) n all_known known e) h

  probe_loop-AreProbes :
      (target left cursor : ℕ) (xs : List String)
      → AreProbes node static_peers xs
      → AreProbes node static_peers (probe_loop node all_known target left cursor xs).0
  unfolding probe_loop
  probe_loop-AreProbes target zero cursor xs h = h
  probe_loop-AreProbes target (suc left) cursor xs h =
      let peer = at_index (cursor % length all_known) all_known in
      elim (Bool-cases (ltb (length xs) target)) [
        | inl few ↦ rw few (
            probe_loop-AreProbes target left (suc cursor) (add_probe node peer xs)
              (probed peer (cursor % length all_known) xs refl h))
        | inr enough ↦ rw enough h
      ]

-- The peers that are selected to be probed differ from each other, are static peers, and the node is
-- not among them, whatever station dump and whatever cursor.
pub select_mesh_probe_peers-AreProbes :
    (c : Config) (now : ℕ) (static_peers station_peers : List String) (m : Mesh)
    → AreProbes c.node static_peers (select_mesh_probe_peers c now static_peers station_peers m).0
unfolding select_mesh_probe_peers
select_mesh_probe_peers-AreProbes c now static_peers station_peers m =
    let recent = recently_reachable (mesh_peer_ttl c) now m.neighbours.mesh_reachable_peers in
    let all = unique (station_peers ++ recent) in
    let priority = filter (λ n. contains n static_peers) all in
    let nodup = sort_names-IsNodup priority (
      filter-IsNodup (λ n. contains n static_peers) all
        (unique-IsNodup (station_peers ++ recent))) in
    let static =
      All-sort_names (λ n. contains n static_peers ≡ true) priority
        (All-filter_self (λ n. contains n static_peers ≡ true) (λ n. contains n static_peers)
          (λ n h. h) all) in
    probe_loop-AreProbes c.node static_peers (sort_names (unique static_peers))
      (All-sort_names (λ x. contains x static_peers ≡ true) (unique static_peers)
        (All-unique (λ x. contains x static_peers ≡ true) static_peers
          (contains_self static_peers)))
      _ _ _ _
      (record {
        different = filter-IsNodup (λ n. not (n == c.node)) _ nodup;
        others =
            All-filter_self (λ n. n ≢ c.node) (λ n. not (n == c.node))
              (λ n h. ground (arith, h, eq_iff n c.node)) _;
        static = All-filter (λ n. contains n static_peers ≡ true) (λ n. not (n == c.node)) _ static;
      })
