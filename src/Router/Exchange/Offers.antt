-- ===== src/Router/Exchange/Offers.antt =====
-- What `EpidemicRouter.select_bundles_for_peer` (dtn/epidemic.py) offers from a snapshot.
use meshpay.Base.{
  ℕ, zero, suc, ◌≡◌, ◌≢◌, refl, ap, Bool, false, not, none, String, ℤ, List, [], ◌∷◌, All,
  All-filter, All-filter_self, IsNodup, contains, filter, take, map, Dict, lookup, keys, arith,
  Bool-cases, inl, inr,
}
use meshpay.Value.{ok}
use meshpay.Runtime.{Runtime}
use meshpay.Bundle.{Bundle, expired}
use meshpay.Store.{Store, prune_expired, delete_where, drop_where, without_ids}
use meshpay.Store.Save.{drop_where-All}
use meshpay.Store.Order.{take-All}
use meshpay.Store.Unknown.{IsKeyed, drop_where-IsKeyed}
use meshpay.Router.Remember.{Daemon, is_superseded}
use meshpay.Router.Remember.Vaccine.{All-drop_where}
use meshpay.Router.Exchange.Delivery.{IsNews}

-- The unexpired bundles of the store that the peer lacks, up to the limit.
abbrev pub offered : ℤ → ℕ → List String → Store → List Bundle
offered now limit known st =
    take limit (
      filter (λ b. not (contains b.bundle_id known))
        (without_ids [] (prune_expired now st).bundles))

-- The guard of `remember_bundle` does not raise for the bundle.
abbrev pub IsOrderly : Bundle → Type 0
IsOrderly b = (st : Store) × (is_superseded b st ≡ ok false)

-- Every bundle stands under its id, once, and the guard does not raise for it.
pub record IsProper (d : Dict Bundle) : Type 0 where
  pub keyed : IsKeyed d
  pub once : IsNodup (keys d)
  pub orderly : All (λ e. IsOrderly e.1) d

lookup-missing :
    {V : Type 0} (k : String) (d : Dict V) → contains k (keys d) ≡ false → lookup k d ≡ none
lookup-missing k [] h = refl
lookup-missing k ((j, v) ∷ d) h = ground (arith, h, lookup-missing k d)

without_ids-All :
    (P : Bundle → Type 0) (known : List String) (d : Dict Bundle)
    → All (λ e. P e.1) d
    → All P (without_ids known d)
unfolding without_ids
without_ids-All P known [] h = tt
without_ids-All P known ((id, b) ∷ d) (p, h) = elim (Bool-cases (contains id known)) [
  | inl there ↦ rw there (without_ids-All P known d h)
  | inr new ↦ rw new (p, without_ids-All P known d h)
]

keys-drop_where :
    (P : String → Type 0) (p : Bundle → Bool) (d : Dict Bundle)
    → All P (keys d)
    → All P (keys (drop_where p d))
unfolding drop_where
keys-drop_where P p [] h = tt
keys-drop_where P p ((id, b) ∷ d) (pid, h) = elim (Bool-cases (p b)) [
  | inl hit ↦ rw hit (keys-drop_where P p d h)
  | inr miss ↦ rw miss (pid, keys-drop_where P p d h)
]

pub drop_where-once :
    (p : Bundle → Bool) (d : Dict Bundle) → IsNodup (keys d) → IsNodup (keys (drop_where p d))
unfolding drop_where
drop_where-once p [] h = tt
drop_where-once p ((id, b) ∷ d) (n, h) = elim (Bool-cases (p b)) [
  | inl hit ↦ rw hit (drop_where-once p d h)
  | inr miss ↦ rw miss (keys-drop_where (λ y. y ≢ id) p d n, drop_where-once p d h)
]

ids-without_ids : (d : Dict Bundle) → IsKeyed d → map (λ b. b.bundle_id) (without_ids [] d) ≡ keys d
unfolding without_ids
ids-without_ids [] h = refl
ids-without_ids ((id, b) ∷ d) (same, h) = rw same (ap (λ xs. id ∷ xs) (ids-without_ids d h))

module _ (f : Bundle → String) where
  filter-ids :
      (P : String → Type 0) (p : Bundle → Bool) (bs : List Bundle)
      → All P (map f bs)
      → All P (map f (filter p bs))
  filter-ids P p [] h = tt
  filter-ids P p (b ∷ bs) (pb, h) = elim (Bool-cases (p b)) [
    | inl hit ↦ rw hit (pb, filter-ids P p bs h)
    | inr miss ↦ rw miss (filter-ids P p bs h)
  ]

  filter-once :
      (p : Bundle → Bool) (bs : List Bundle) → IsNodup (map f bs) → IsNodup (map f (filter p bs))
  filter-once p [] h = tt
  filter-once p (b ∷ bs) (n, h) = elim (Bool-cases (p b)) [
    | inl hit ↦ rw hit (filter-ids (λ y. y ≢ f b) p bs n, filter-once p bs h)
    | inr miss ↦ rw miss (filter-once p bs h)
  ]

  take-ids :
      (P : String → Type 0) (n : ℕ) (bs : List Bundle)
      → All P (map f bs)
      → All P (map f (take n bs))
  take-ids P zero bs h = tt
  take-ids P (suc n) [] h = tt
  take-ids P (suc n) (b ∷ bs) (pb, h) = (pb, take-ids P n bs h)

  take-once : (n : ℕ) (bs : List Bundle) → IsNodup (map f bs) → IsNodup (map f (take n bs))
  take-once zero bs h = tt
  take-once (suc n) [] h = tt
  take-once (suc n) (b ∷ bs) (m, h) = (take-ids (λ y. y ≢ f b) n bs m, take-once n bs h)

module _ (rt : Runtime) (now : ℤ) (limit : ℕ) (st : Store) (proper : IsProper st.bundles) where
  pub offered-once :
      (known : List String) → IsNodup (map (λ b. b.bundle_id) (offered now limit known st))
  unfolding prune_expired delete_where
  offered-once known =
      let kept = drop_where (expired now) st.bundles in
      let all_once : IsNodup (map (λ b. b.bundle_id) (without_ids [] kept)) =
        rw (ids-without_ids kept (drop_where-IsKeyed (expired now) st.bundles proper.keyed))
          (drop_where-once (expired now) st.bundles proper.once) in
      take-once (λ b. b.bundle_id) limit _ (filter-once (λ b. b.bundle_id) _ _ all_once)

  offered-All :
      (P : Bundle → Type 0) (known : List String)
      → All (λ e. P e.1) (drop_where (expired now) st.bundles)
      → All P (offered now limit known st)
  unfolding prune_expired delete_where
  offered-All P known h = take-All P limit _ (All-filter P _ _ (without_ids-All P [] _ h))

  pub offered-fresh :
      (known : List String) → All (λ b. expired now b ≡ false) (offered now limit known st)
  offered-fresh known =
      offered-All (λ b. expired now b ≡ false) known (drop_where-All (expired now) st.bundles)

  -- An offer is news to the peer.
  pub offered-IsNews :
      (d : Daemon) → All (IsNews rt now d) (offered now limit (keys d.store.bundles) st)
  unfolding prune_expired delete_where
  offered-IsNews d =
      let known = keys d.store.bundles in
      zip _ (offered-fresh known)
        (offered-All IsOrderly known
          (All-drop_where IsOrderly (expired now) st.bundles proper.orderly))
        (take-All (λ b. lookup b.bundle_id d.store.bundles ≡ none) limit _
          (All-filter_self _ (λ b. not (contains b.bundle_id known))
            (λ b lacks. lookup-missing b.bundle_id d.store.bundles (ground (arith, lacks))) _))
    where
      zip :
          (bs : List Bundle)
          → All (λ b. expired now b ≡ false) bs
          → All IsOrderly bs
          → All (λ b. lookup b.bundle_id d.store.bundles ≡ none) bs
          → All (IsNews rt now d) bs
      zip [] f o m = tt
      zip (b ∷ bs) (f, fs) (o, os) (m, ms) =
          (record { fresh = f; orderly = o; missing = m }, zip bs fs os ms)
