-- ===== src/Store/Save.antt =====
-- Saving a bundle, and delivering one.
use meshpay.Value.{Fields, Value, obj, text, arr, real, int, null, get}
use meshpay.Transaction.Payload.{text_equals}
use meshpay.Store.Kept.{bundles-index, lookup-drop_where, lookup-save}
use meshpay.Base.{
  ap, ◌⊎◌, Option, eq_iff, refl, ◌≢◌, lookup, ◌≡◌, Bool, true, false, none, some, String, ◌==◌,
  eq_refl, if◌then◌else◌, Dict, insert, lookup-insert, List, [], ◌∷◌, All, contains, arith,
  Option-cases, Bool-cases, inl, inr, ℤ,
}
use meshpay.Runtime.{Runtime}
use meshpay.Bundle.{Bundle, expired}
use meshpay.Store.{
  Store, add_name, is_confirmation, is_transfer, payload_type, order_id_of, is_settled_by,
  drop_where, delete_where, prune_by_order_id, index_bundle, save, load, mark_delivered,
}

pub drop_where-All :
    (p : Bundle → Bool) (d : Dict Bundle) → All (λ e. p e.1 ≡ false) (drop_where p d)
unfolding drop_where
drop_where-All p [] = tt
drop_where-All p ((id, b) ∷ rest) = elim (Bool-cases (p b)) [
  | inl hit ↦ rw hit (drop_where-All p rest)
  | inr miss ↦ rw miss (miss, drop_where-All p rest)
]

pub contains-add_name : (x : String) (xs : List String) → contains x (add_name x xs) ≡ true
contains-add_name x xs = ground (arith, eq_refl x)

-- The payload is a dict of the type.
pub record HasType (type : String) (b : Bundle) : Type 0 where
  pub fields : Fields
  pub payload : b.payload ≡ obj fields
  pub typed : get "type" fields ≡ some (text type)

-- A pending payment object of the order: a transfer order or a signed one whose `data` names it, by
-- `order_id` or, in the compact layout, by `i`.
pub record IsPaymentOf (order_id : String) (b : Bundle) : Type 0 where
  pub fields : Fields
  pub contents : Fields
  pub payload : b.payload ≡ obj fields
  pub typed :
      (get "type" fields ≡ some (text "transfer_order"))
      ⊎ (get "type" fields ≡ some (text "signed_transfer_order"))
  pub held : get "data" fields ≡ some (obj contents)
  pub filled : (order_id == "") ≡ false
  pub named :
      (get "order_id" contents ≡ some (text order_id))
      ⊎ ((get "order_id" contents ≡ none) × (get "i" contents ≡ some (text order_id)))

payment-is_transfer : (id : String) (b : Bundle) → IsPaymentOf id b → is_transfer b ≡ true
unfolding is_transfer payload_type
payment-is_transfer id b p = elim p.typed [
  | inl plain ↦ rw (p.payload, plain) refl
  | inr signed ↦ rw (p.payload, signed) refl
]

payment-order_id :
    (rt : Runtime) (id : String) (b : Bundle) → IsPaymentOf id b → order_id_of rt b ≡ some id
unfolding order_id_of
payment-order_id rt id b p = elim p.named [
  | inl full ↦ ground (arith, p.payload, p.held, full, p.filled)
  | inr (absent, compact) ↦ ground (arith, p.payload, p.held, absent, compact, p.filled)
]

payment-is_settled_by :
    (rt : Runtime) (id : String) (b : Bundle) → IsPaymentOf id b → is_settled_by rt id b ≡ true
unfolding is_settled_by
payment-is_settled_by rt id b p =
    ground (arith, payment-is_transfer id b p, payment-order_id rt id b p, eq_refl id)

pub text_equals-some : (s : String) (v : Option Value) → text_equals s v ≡ true → v ≡ some (text s)
text_equals-some s none h = absurd (cc)
text_equals-some s (some (text t)) h = ap (λ x. some (text x)) (ground (arith, h, eq_iff t s))
text_equals-some s (some (obj fs)) h = absurd (cc)
text_equals-some s (some (arr xs)) h = absurd (cc)
text_equals-some s (some (real r)) h = absurd (cc)
text_equals-some s (some (int n)) h = absurd (cc)
text_equals-some s (some null) h = absurd (cc)

pub HasType-payload_type :
    (type : String) (b : Bundle) → payload_type b ≡ some (text type) → HasType type b
unfolding payload_type
HasType-payload_type type b h = of_payload b.payload refl
  where
    of_payload : (v : Value) → b.payload ≡ v → HasType type b
    of_payload (obj fs) e = record { fields = fs; payload = e; typed = rw e at h }
    of_payload (arr xs) e = absurd (ground (arith, h, e))
    of_payload (text t) e = absurd (ground (arith, h, e))
    of_payload (real r) e = absurd (ground (arith, h, e))
    of_payload (int n) e = absurd (ground (arith, h, e))
    of_payload null e = absurd (ground (arith, h, e))

is_transfer-HasType :
    (b : Bundle)
    → is_transfer b ≡ true
    → HasType "transfer_order" b ⊎ HasType "signed_transfer_order" b
unfolding is_transfer
is_transfer-HasType b h = elim (Bool-cases (text_equals "transfer_order" (payload_type b))) [
  | inl plain ↦ inl (HasType-payload_type "transfer_order" b (text_equals-some _ _ plain))
  | inr other ↦ inr (
      HasType-payload_type "signed_transfer_order" b
        (text_equals-some _ _ (ground (arith, h, other))))
]

module _ (rt : Runtime) (b : Bundle) (st : Store) where
  pub saved-confirmed :
      (order_id : String)
      → is_confirmation b ≡ true
      → order_id_of rt b ≡ some order_id
      → (contains order_id (save rt b st).confirmed_order_ids ≡ true)
        × All (λ e. is_settled_by rt order_id e.1 ≡ false) (save rt b st).bundles
  unfolding save prune_by_order_id delete_where
  saved-confirmed order_id confirms known =
      rw (confirms, known)
        (contains-add_name order_id _, drop_where-All (is_settled_by rt order_id) _)

  none_left :
      (id : String) (d : Dict Bundle)
      → All (λ e. is_settled_by rt id e.1 ≡ false) d
      → All (λ e. IsPaymentOf id e.1 → ⊥) d
  none_left id [] h = tt
  none_left id ((k, e) ∷ d) (free, h) =
      (λ p. absurd (ground (arith, free, payment-is_settled_by rt id e p)), none_left id d h)

  stays :
      (order_id k : String) (e : Bundle)
      → is_confirmation b ≡ true
      → order_id_of rt b ≡ some order_id
      → k ≢ b.bundle_id
      → lookup k st.bundles ≡ some e
      → (HasType "transfer_order" e → ⊥)
      → (HasType "signed_transfer_order" e → ⊥)
      → lookup k (save rt b st).bundles ≡ some e
  unfolding save prune_by_order_id delete_where is_settled_by
  stays order_id k e confirms known other there not_plain not_signed =
      let stored : Store = record st { bundles = insert b.bundle_id b st.bundles } in
      let still : lookup k (index_bundle rt b stored).bundles ≡ some e =
        rw (bundles-index rt b stored) (
          ground (
            arith,
            lookup-insert b.bundle_id k b st.bundles,
            eq_iff b.bundle_id k,
            there,
            other,
          )) in
      rw (save, confirms, known)
        (lookup-drop_where (is_settled_by rt order_id) k e _ still no_transfer)
    where
      no_transfer : is_settled_by rt order_id e ≡ false
      no_transfer = elim (Bool-cases (is_transfer e)) [
        | inr free ↦ ground (arith, free)
        | inl hit ↦ absurd (elim (is_transfer-HasType e hit) [
          | inl plain ↦ not_plain plain
          | inr signed ↦ not_signed signed
        ])
      ]

  -- A confirmation that is saved settles its order: the order's id is confirmed, the confirmation is in
  -- the store, and no bundle is left in it whose payload is a transfer order or a signed one that names
  -- the order by this text. What was stored under another id and is of neither type is still there.
  pub save-settles :
      (order_id : String)
      → is_confirmation b ≡ true
      → order_id_of rt b ≡ some order_id
      → (contains order_id (save rt b st).confirmed_order_ids ≡ true)
        × (lookup b.bundle_id (save rt b st).bundles ≡ some b)
        × All (λ e. IsPaymentOf order_id e.1 → ⊥) (save rt b st).bundles
        × ((k : String) (e : Bundle)
            → k ≢ b.bundle_id
            → lookup k st.bundles ≡ some e
            → (HasType "transfer_order" e → ⊥)
            → (HasType "signed_transfer_order" e → ⊥)
            → lookup k (save rt b st).bundles ≡ some e)
  save-settles order_id confirms known =
      let (noted, free) = saved-confirmed order_id confirms known in
      (
        noted,
        lookup-save rt b st,
        none_left order_id _ free,
        λ k e. stays order_id k e confirms known,
      )

  saved-bundles :
      is_confirmation b ≡ false → (save rt b st).bundles ≡ insert b.bundle_id b st.bundles
  unfolding save index_bundle
  saved-bundles other = elim (Option-cases (order_id_of rt b)) [
    | inl missing ↦ rw (save, other, index_bundle, missing)
    | inr (order_id, known) ↦ rw (save, other, index_bundle, known)
  ]

  -- A bundle that is no confirmation can be loaded until it expires once it is saved, and all others as
  -- before.
  pub save-load :
      (now : ℤ) (id : String)
      → is_confirmation b ≡ false
      → load now id (save rt b st)
        ≡ (if b.bundle_id == id then if expired now b then none else some b else load now id st)
  unfolding load
  save-load now id other =
      ground (arith, saved-bundles other, lookup-insert b.bundle_id id b st.bundles)

-- The first delivery of a bundle is reported, a second one is not and changes nothing.
pub mark_delivered-twice :
    (b : Bundle) (st : Store)
    → contains b.bundle_id st.delivered_ids ≡ false
    → ((mark_delivered b st).0 ≡ true)
      × (mark_delivered b (mark_delivered b st).1 ≡ (false, (mark_delivered b st).1))
unfolding mark_delivered
mark_delivered-twice b st new = (ground (arith, new), ground (arith, new, eq_refl b.bundle_id))
