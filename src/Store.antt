-- ===== src/Store.antt =====
-- `BundleStore` (dtn/store.py), in memory: without its debug logs, which no other code reads. A set
-- is a list without order. The clock is read once per method.
pub mod Kept
pub mod Save
pub mod Order
pub mod Priority
pub mod Unknown
use meshpay.Base.{
  ℕ, suc, ◌+◌, ◌-◌, ltb, leb, Bool, true, false, not, ◌&&◌, ◌||◌, Option, none, some, String, ℤ,
  pos, eq_ℤ, ltb_ℤ, ◌==◌, if◌then◌else◌, List, [], ◌∷◌, ◌++◌, contains, filter, length, take, Dict,
  lookup, insert, erase, has_key, keys,
}
use meshpay.Value.{
  Value, null, int, real, text, arr, obj, Items, nil, cons, Fields, end, field, get, get_default,
}
use meshpay.Runtime.{Runtime, to_str}
use meshpay.Transaction.Payload.{text_equals}
use meshpay.Bundle.{Bundle, expired}

pub record Store : Type 0 where
  pub bundles : Dict Bundle
  pub confirmed_order_ids : List String
  pub delivered_ids : List String
  pub bundle_order_ids : Dict String
  pub bundles_saved : ℕ
  pub bundles_deleted : ℕ
  pub confirmation_prunes : ℕ

-- `set.add`
abbrev pub add_name : String → List String → List String
add_name x xs = if contains x xs then xs else x ∷ xs

-- `_payload_type`; a dict only.
unfoldable pub payload_type : Bundle → Option Value
payload_type b = go b.payload
  where
    go : Value → Option Value
    go (obj fs) = get "type" fs
    go _ = none

unfoldable pub is_confirmation : Bundle → Bool
is_confirmation b = text_equals "confirmation_order" (payload_type b)

-- `_payload_type(bundle) in {"transfer_order", "signed_transfer_order"}`; a type that is a list or a
-- dict, which Python cannot hash, is taken for an unknown one.
unfoldable pub is_transfer : Bundle → Bool
is_transfer b =
    text_equals "transfer_order" (payload_type b)
    || text_equals "signed_transfer_order" (payload_type b)

-- `bool(v)`
abbrev pub truthy : Option Value → Bool
truthy none = false
truthy (some null) = false
truthy (some (int n)) = not (eq_ℤ n (pos 0))
truthy (some (real r)) = not (eq_ℤ r (pos 0))
truthy (some (text s)) = not (s == "")
truthy (some (arr nil)) = false
truthy (some (arr (cons _ _))) = true
truthy (some (obj end)) = false
truthy (some (obj (field _ _ _))) = true

-- `unknown_to_peer`'s ranks
unfoldable pub type_rank : Bundle → ℕ
type_rank b =
    if text_equals "confirmation_order" (payload_type b)
    then 0
    else if text_equals "signed_transfer_order" (payload_type b)
    then 1
    else if text_equals "transfer_order" (payload_type b)
    then 2
    else 3

-- `0 if peer_node and bundle.dst == peer_node else 1`
unfoldable pub dst_rank : Option String → Bundle → ℕ
dst_rank none b = 1
dst_rank (some peer) b = if not (peer == "") && b.dst == peer then 0 else 1

-- The tuple comparison of two priorities, strictly.
unfoldable pub precedes : Option String → Bundle → Bundle → Bool
unfolding type_rank dst_rank
precedes peer a b =
    if ltb (type_rank a) (type_rank b)
    then true
    else if ltb (type_rank b) (type_rank a)
    then false
    else if ltb (dst_rank peer a) (dst_rank peer b)
    then true
    else if ltb (dst_rank peer b) (dst_rank peer a)
    then false
    else ltb_ℤ a.created_at b.created_at

-- `sorted(bundles, key=priority)`, which keeps the order of equals.
unfoldable pub insert_by : Option String → Bundle → List Bundle → List Bundle
insert_by peer b [] = b ∷ []
insert_by peer b (x ∷ xs) = if precedes peer x b then x ∷ insert_by peer b xs else b ∷ x ∷ xs

unfoldable pub sort_by : Option String → List Bundle → List Bundle
sort_by peer [] = []
sort_by peer (b ∷ bs) = insert_by peer b (sort_by peer bs)

-- The bundles whose id the peer does not have, in the order of the dict.
unfoldable pub without_ids : List String → Dict Bundle → List Bundle
without_ids known [] = []
without_ids known ((id, b) ∷ rest) =
    if contains id known then without_ids known rest else b ∷ without_ids known rest

-- `self._bundles.pop(bid)` for the bundles that meet a test, and the ids of them.
unfoldable pub drop_where : (Bundle → Bool) → Dict Bundle → Dict Bundle
drop_where p [] = []
drop_where p ((id, b) ∷ rest) = if p b then drop_where p rest else (id, b) ∷ drop_where p rest

unfoldable pub ids_where : (Bundle → Bool) → Dict Bundle → List String
ids_where p [] = []
ids_where p ((id, b) ∷ rest) = if p b then id ∷ ids_where p rest else ids_where p rest

unfoldable pub erase_all : {V : Type 0} → List String → Dict V → Dict V
erase_all [] d = d
erase_all (id ∷ ids) d = erase_all ids (erase id d)

-- The deletion loop that both prunings share.
unfoldable pub delete_where : (Bundle → Bool) → Store → Store
delete_where p st = record st {
  bundles = drop_where p st.bundles;
  bundle_order_ids = erase_all (ids_where p st.bundles) st.bundle_order_ids;
  bundles_deleted = st.bundles_deleted + length (ids_where p st.bundles);
}

-- `_prune_expired_unlocked`
unfoldable pub prune_expired : ℤ → Store → Store
prune_expired now = delete_where (expired now)

-- `has`
unfoldable pub has : String → Store → Bool
has bundle_id st = has_key bundle_id st.bundles

-- `load`
unfoldable pub load : ℤ → String → Store → Option Bundle
load now bundle_id st = elim (lookup bundle_id st.bundles) [
  | none ↦ none
  | some b ↦ if expired now b then none else some b
]

-- `all`, with the pruned store.
unfoldable pub all : ℤ → Store → List Bundle × Store
all now st = let st' = prune_expired now st in (without_ids [] st'.bundles, st')

-- `ids`, with the pruned store.
unfoldable pub ids : ℤ → Store → List String × Store
ids now st = let st' = prune_expired now st in (keys st'.bundles, st')

-- `snapshot`, with the pruned store.
unfoldable pub snapshot : ℤ → Store → (List Bundle × List String) × Store
snapshot now st =
    let st' = prune_expired now st in ((without_ids [] st'.bundles, keys st'.bundles), st')

-- The list that `unknown_to_peer` sorts, cut to the limit: `heapq.nsmallest` is the front of the
-- sorted list.
unfoldable pub cut : Option ℤ → List Bundle → List Bundle
cut none bs = bs
cut (some (pos n)) bs = take n bs
cut (some _) bs = []

-- `unknown_to_peer`, with the pruned store.
unfoldable pub unknown_to_peer :
    ℤ → List String → Option String → Option ℤ → Store → List Bundle × Store
unknown_to_peer now peer_ids peer_node limit st =
    if elim limit [ none ↦ false | some n ↦ not (ltb_ℤ (pos 0) n) ]
    then ([], st)
    else let st' = prune_expired now st in
      (cut limit (sort_by peer_node (without_ids peer_ids st'.bundles)), st')

-- `mark_delivered`
unfoldable pub mark_delivered : Bundle → Store → Bool × Store
mark_delivered b st =
    if contains b.bundle_id st.delivered_ids
    then (false, st)
    else (true, record st { delivered_ids = b.bundle_id ∷ st.delivered_ids })

module _ (rt : Runtime) where
  -- `_order_id_for_bundle`
  unfoldable pub order_id_of : Bundle → Option String
  order_id_of b = of_payload b.payload
    where
      or_none : Option Value → Option String
      or_none none = none
      or_none (some v) = if truthy (some v) then some (to_str rt v) else none

      of_data : Value → Option String
      of_data (obj contents) =
          if truthy (get "order_id" contents)
          then or_none (get "order_id" contents)
          else or_none (get "i" contents)
      of_data _ = none

      of_payload : Value → Option String
      of_payload (obj fs) = of_data (get_default "data" (obj end) fs)
      of_payload _ = none

  -- A pending payment object of the order.
  unfoldable pub is_settled_by : String → Bundle → Bool
  is_settled_by order_id b =
      is_transfer b && elim (order_id_of b) [ none ↦ false | some id ↦ id == order_id ]

  -- `_prune_by_order_id_unlocked`
  unfoldable pub prune_by_order_id : String → Store → Store
  prune_by_order_id order_id st = record (delete_where (is_settled_by order_id) st) {
    confirmation_prunes =
        st.confirmation_prunes + length (ids_where (is_settled_by order_id) st.bundles);
  }

  -- `_index_bundle_unlocked`
  unfoldable pub index_bundle : Bundle → Store → Store
  index_bundle b st = elim (order_id_of b) [
    | none ↦ record st { bundle_order_ids = erase b.bundle_id st.bundle_order_ids }
    | some order_id ↦ record st {
      bundle_order_ids = insert b.bundle_id order_id st.bundle_order_ids;
      confirmed_order_ids =
          if is_confirmation b
          then add_name order_id st.confirmed_order_ids
          else st.confirmed_order_ids;
    }
  ]

  -- `save`
  unfoldable pub save : Bundle → Store → Store
  save b st =
      let stored = record st { bundles = insert b.bundle_id b st.bundles } in
      let counted = record (index_bundle b stored) { bundles_saved = st.bundles_saved + 1 } in
      if not (is_confirmation b) then counted else elim (order_id_of b) [
        | none ↦ counted
        | some order_id ↦
            prune_by_order_id order_id (record counted {
              confirmed_order_ids = add_name order_id counted.confirmed_order_ids;
            })
      ]
