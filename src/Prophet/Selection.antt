-- ===== src/Prophet/Selection.antt =====
-- Which bundles are selected, and in which order.
use mathlib.Core.Option.{get_or}
use meshpay.Base.{
  ◌<◌, ◌≡◌, true, false, String, ℤ, List, [], contains, length, Dict, lookup, map, ◌⊎◌,
}
use meshpay.Bundle.{Bundle}
use meshpay.Store.{Store}
use meshpay.Store.Order.{IsAmong}
use meshpay.Prophet.{Floats, Prophet, age_predictabilities, keep_history}

module _ (f : Floats) (r : Prophet f) (peer : String) where
  -- The peer is the destination, or it is more likely to reach it than the node, by more than epsilon.
  abbrev pub IsLikelier : Bundle → Type 0
  IsLikelier b =
      (b.dst ≡ peer)
      ⊎ (f.less (f.plus (get_or (lookup b.dst r.predictabilities) f.nought) r.epsilon)
            (get_or (lookup b.dst (get_or (lookup peer r.peer_predictabilities) [])) f.nought)
          ≡ true)

  -- Of a bundle that some peers had.
  abbrev IsAllowedWith : List String → Bundle → Type 0
  IsAllowedWith peers b =
      (b.dst ≡ peer) ⊎ ((contains peer peers ≡ true) ⊎ (length peers < r.replication_budget))

  abbrev IsAllowedBy : Dict (List String) → Bundle → Type 0
  IsAllowedBy ds b = IsAllowedWith (get_or (lookup b.bundle_id ds) []) b

  -- The peer is the destination, or had the bundle from the node before, or fewer peers than the
  -- budget had.
  abbrev pub IsAllowed : Bundle → Type 0
  IsAllowed b = IsAllowedBy r.forwarded_to b

  abbrev preds : Dict f.Float
  preds = get_or (lookup peer r.peer_predictabilities) []

module _ (f : Floats) (now : ℤ) (known : List String) (peer : String) (local : List Bundle)
    (r : Prophet f) where
  abbrev aged : Prophet f
  aged = age_predictabilities f now r

  abbrev listed : List String
  listed = map (λ b. b.bundle_id) local

  abbrev history : Dict (List String)
  history = keep_history listed aged.forwarded_to

  -- What may be said of a selected bundle.
  abbrev pub IsChosen : Bundle → Type 0
  IsChosen b =
      IsAmong b local
      × (contains b.bundle_id known ≡ false)
      × IsAllowed f aged peer b
      × IsLikelier f aged peer b
