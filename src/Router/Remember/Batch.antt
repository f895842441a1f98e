-- ===== src/Router/Remember/Batch.antt =====
-- What every bundle of a batch keeps, the batch keeps.
use meshpay.Base.{ℕ, ◌≡◌, refl, true, false, String, ℤ, Bool-cases, inl, inr, ◌⊎◌}
use meshpay.Value.{
  Value, Items, nil, cons, Fields, Error, Result, ok, err, as_fields, as_items, get_default, arr,
}
use meshpay.Runtime.{Runtime}
use meshpay.Bundle.{Bundle, expired, from_dict}
use meshpay.Store.{has}
use meshpay.Router.Policy.{Policy}
use meshpay.Router.Remember.{
  Daemon, not_decoded, record_event, is_superseded, keep, remember_bundle, take_in, taken, take_all,
  process_incoming_batch,
}

pub Result-cases {ℓ} :
    {A : Type ℓ} (r : Result A) → ((e : Error) × (r ≡ err e)) ⊎ ((a : A) × (r ≡ ok a))
Result-cases (err e) = inl (e, refl)
Result-cases (ok a) = inr (a, refl)

-- The daemon after a batch; what raises leaves it as it was.
abbrev pub daemon_after : {S : Type 0} → Result (ℕ × Daemon × S) → Daemon → Daemon
daemon_after (ok (count, d', s)) d = d'
daemon_after (err e) d = d

module _ (rt : Runtime) (now : ℤ) (b : Bundle) (d : Daemon) where
  -- `remember_bundle` raises, refuses the bundle, or keeps it.
  pub remember_bundle-cases :
      ((e : Error) × (remember_bundle rt now b d ≡ err e))
      ⊎ ((remember_bundle rt now b d ≡ ok (false, d))
          ⊎ ((remember_bundle rt now b d ≡ ok (true, keep rt b d))
              × (expired now b ≡ false)
              × (is_superseded b d.store ≡ ok false)
              × (has b.bundle_id d.store ≡ false)))
  unfolding remember_bundle
  remember_bundle-cases = elim (Bool-cases (expired now b)) [
    | inl old ↦ inr (inl (rw (remember_bundle, old) refl))
    | inr alive ↦ elim (Result-cases (is_superseded b d.store)) [
      | inl (e, raised) ↦ inl (e, rw (remember_bundle, alive, raised) refl)
      | inr (true, gone) ↦ inr (inl (rw (remember_bundle, alive, gone) refl))
      | inr (false, open_yet) ↦ elim (Bool-cases (has b.bundle_id d.store)) [
        | inl there ↦ inr (inl (rw (remember_bundle, alive, open_yet, there) refl))
        | inr new ↦
            inr (inr (rw (remember_bundle, alive, open_yet, new) refl, alive, open_yet, new))
      ]
    ]
  ]

module _ (rt : Runtime) (P : Daemon → Type 0)
    (kept : (b : Bundle) (d : Daemon)
      → is_superseded b d.store ≡ ok false
      → has b.bundle_id d.store ≡ false
      → P d
      → P (keep rt b d)) where
  module _ {S : Type 0} (policy : Policy S) (now : ℤ) (peer : String)
      (noted : (d : Daemon) → P d → P (record_event not_decoded d)) where
    pub taken-keeps :
        (bundle_data : Value) (d : Daemon) (s : S)
        → P d
        → P (taken rt policy now peer (take_in rt policy now peer bundle_data (d, s)) (d, s)).1
    unfolding take_in
    taken-keeps bundle_data d s p = elim (Result-cases (as_fields bundle_data)) [
      | inl (e, raised) ↦ rw (take_in, raised) (noted d p)
      | inr (fields, dict) ↦ elim (Result-cases (from_dict rt fields)) [
        | inl (e, raised) ↦ rw (take_in, dict, raised) (noted d p)
        | inr (b, decoded) ↦ elim (remember_bundle-cases rt now b d) [
          | inl (e, raised) ↦ rw (take_in, dict, decoded, raised) (noted d p)
          | inr (inl refused) ↦ rw (take_in, dict, decoded, refused) p
          | inr (inr (taken, _, passed, new)) ↦
              rw (take_in, dict, decoded, taken) (kept b d passed new p)
        ]
      ]
    ]

    pub take_all-keeps :
        (items : Items) (count : ℕ) (d : Daemon) (s : S)
        → P d
        → P (take_all rt policy now peer items count (d, s)).1
    unfolding take_all
    take_all-keeps nil count d s p = p
    take_all-keeps (cons v rest) count d s p = take_all-keeps rest _ _ _ (taken-keeps v d s p)

    pub process_incoming_batch-keeps :
        (batch : Fields) (d : Daemon) (s : S)
        → P d
        → P (daemon_after (process_incoming_batch rt policy now peer batch (d, s)) d)
    unfolding process_incoming_batch
    process_incoming_batch-keeps batch d s p =
        elim (Result-cases (as_items (get_default "bundles" (arr nil) batch))) [
          | inl (e, raised) ↦ rw (process_incoming_batch, raised) p
          | inr (items, given) ↦ rw (process_incoming_batch, given) (take_all-keeps items 0 d s p)
        ]
