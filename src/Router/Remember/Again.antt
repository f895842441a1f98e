-- ===== src/Router/Remember/Again.antt =====
-- A bundle that is kept, and what becomes of it when it arrives again.
use meshpay.Base.{
  ◌≡◌, true, false, some, String, lookup, arith, Bool-cases, inl, inr, ◌⊎◌, ◌∙◌, ap, sym,
}
use meshpay.Value.{ok}
use meshpay.Runtime.{Runtime}
use meshpay.Bundle.{Bundle, add_hop, is_delivered_to}
use meshpay.Store.{Store, save, mark_delivered}
use meshpay.Store.Kept.{lookup-save}
use meshpay.Router.Remember.Vaccine.{store-deliver}
use meshpay.Router.Remember.{Daemon, is_confirmed, is_superseded, keep}

pub bundles-mark_delivered :
    (b : Bundle) (st : Store) → (mark_delivered b st).1.bundles ≡ st.bundles
unfolding mark_delivered
bundles-mark_delivered b st = ground arith

pub id-add_hop : (node : String) (b : Bundle) → (add_hop node b).bundle_id ≡ b.bundle_id
unfolding add_hop
id-add_hop node b = ground arith

pub lookup-keep :
    (rt : Runtime) (b : Bundle) (d : Daemon)
    → lookup b.bundle_id (keep rt b d).store.bundles ≡ some (add_hop d.node b)
unfolding keep
lookup-keep rt b d =
    let b' = add_hop d.node b in
    let saved : lookup b.bundle_id (save rt b' d.store).bundles ≡ some b' =
      ap (λ k. lookup k (save rt b' d.store).bundles) (sym (id-add_hop d.node b))
      ∙ lookup-save rt b' d.store in
    elim (Bool-cases (is_delivered_to d.node b')) [
      | inr other ↦ rw (keep, other) saved
      | inl ours ↦ rw (keep, ours, store-deliver, bundles-mark_delivered) saved
    ]

-- The guard raises for a bundle in every store or in none.
pub never_raises :
    (b : Bundle) (st later : Store)
    → is_superseded b st ≡ ok false
    → (is_superseded b later ≡ ok true) ⊎ (is_superseded b later ≡ ok false)
unfolding is_superseded is_confirmed
never_raises b st later h = ground (arith, h)
