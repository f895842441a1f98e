-- ===== src/Store/Priority.antt =====
-- The priorities of `unknown_to_peer` (dtn/store.py), and in which order they put bundles.
use meshpay.Base.{
  ltb, ◌==◌, eq_iff, eq_refl, none, ◌<◌, ◌⊎◌, not, ◌&&◌, if◌then◌else◌, sym, ℕ, ◌≡◌, refl, ◌∙◌,
  Bool, true, false, Option, some, String, ltb_ℤ, ℤ, arith, Bool-cases, inl, inr,
}
use meshpay.Value.{text}
use meshpay.Transaction.Payload.{text_equals}
use meshpay.Bundle.{Bundle}
use meshpay.Store.Save.{HasType, HasType-payload_type, text_equals-some}
use meshpay.Store.{payload_type, type_rank, dst_rank, precedes}

pub precedes_asym :
    (peer : Option String) (a b : Bundle) → precedes peer a b ≡ true → precedes peer b a ≡ false
unfolding precedes
precedes_asym peer a b h = ground (arith, h)

-- The comparison of two priorities, part by part.
abbrev lower : ℕ → ℕ → ℤ → ℕ → ℕ → ℤ → Bool
lower m p x n q y =
    if ltb m n
    then true
    else if ltb n m
    then false
    else if ltb p q
    then true
    else if ltb q p
    then false
    else ltb_ℤ x y

lower_trans :
    (m p n q k r : ℕ) (x y z : ℤ)
    → lower m p x n q y ≡ false
    → lower n q y k r z ≡ false
    → lower m p x k r z ≡ false
lower_trans m p n q k r x y z h e = ground (arith, h, e)

precedes-lower :
    (peer : Option String) (a b : Bundle)
    → precedes peer a b
      ≡ lower
          (type_rank a)
          (dst_rank peer a)
          a.created_at
          (type_rank b)
          (dst_rank peer b)
          b.created_at
unfolding precedes
precedes-lower peer a b = refl

pub precedes_trans :
    (peer : Option String) (a b c : Bundle)
    → precedes peer a b ≡ false
    → precedes peer b c ≡ false
    → precedes peer a c ≡ false
precedes_trans peer a b c h k =
    precedes-lower peer a c
    ∙ lower_trans (type_rank a) (dst_rank peer a) (type_rank b) (dst_rank peer b) (type_rank c)
        (dst_rank peer c) a.created_at b.created_at c.created_at (sym (precedes-lower peer a b) ∙ h)
        (sym (precedes-lower peer b c) ∙ k)

-- What the code ranks by the type of the payload: confirmations first, then signed orders, then orders.
pub data HasRank (b : Bundle) : ℕ → Type 0 where
  confirmation_first : HasType "confirmation_order" b → HasRank b 0
  signed_second : HasType "signed_transfer_order" b → HasRank b 1
  order_third : HasType "transfer_order" b → HasRank b 2
  rest_last :
      (HasType "confirmation_order" b → ⊥)
      → (HasType "signed_transfer_order" b → ⊥)
      → (HasType "transfer_order" b → ⊥)
      → HasRank b 3

-- The bundle is for the peer, which has a name.
abbrev pub IsForPeer : Option String → Bundle → Type 0
IsForPeer peer b = (p : String) × (peer ≡ some p) × ((p == "") ≡ false) × (b.dst ≡ p)

-- The first of two bundles has the lower rank, or of one rank is the one for the peer, or, where both
-- are or none is, is not the younger one.
abbrev pub MayPrecede : Option String → Bundle → Bundle → Type 0
MayPrecede peer a b =
    (m n : ℕ)
    → HasRank a m
    → HasRank b n
    → (m < n)
      ⊎ ((m ≡ n)
          × ((IsForPeer peer a × (IsForPeer peer b → ⊥))
              ⊎ ((IsForPeer peer b → IsForPeer peer a)
                  × (ltb_ℤ b.created_at a.created_at ≡ false))))

not_typed :
    (type : String) (b : Bundle) → (HasType type b → ⊥) → text_equals type (payload_type b) ≡ false
not_typed type b absent = elim (Bool-cases (text_equals type (payload_type b))) [
  | inl hit ↦ absurd (absent (HasType-payload_type type b (text_equals-some type _ hit)))
  | inr miss ↦ miss
]

payload_type-HasType :
    (type : String) (b : Bundle) → HasType type b → payload_type b ≡ some (text type)
unfolding payload_type
payload_type-HasType type b t = rw (t.payload, t.typed) refl

type_rank-HasRank : (b : Bundle) (n : ℕ) → HasRank b n → type_rank b ≡ n
unfolding type_rank
type_rank-HasRank b n (confirmation_first t) = rw (payload_type-HasType _ b t) refl
type_rank-HasRank b n (signed_second t) = rw (payload_type-HasType _ b t) refl
type_rank-HasRank b n (order_third t) = rw (payload_type-HasType _ b t) refl
type_rank-HasRank b n (rest_last no_confirmation no_signed no_order) =
    rw
      (
        not_typed "confirmation_order" b no_confirmation,
        not_typed "signed_transfer_order" b no_signed,
        not_typed "transfer_order" b no_order,
      )
      refl

dst_rank-IsForPeer : (peer : Option String) (b : Bundle) → IsForPeer peer b → dst_rank peer b ≡ 0
unfolding dst_rank
dst_rank-IsForPeer peer b (p, same, named, mine) =
    rw (same, named, mine) (ground (arith, eq_refl p))

for_peer : (peer : Option String) (b : Bundle) → dst_rank peer b ≡ 0 → IsForPeer peer b
unfolding dst_rank
for_peer none b h = absurd (cc)
for_peer (some p) b h = (p, refl, ground (arith, h), ground (arith, h, eq_iff b.dst p))

dst_rank-cases : (peer : Option String) (b : Bundle) → (dst_rank peer b ≡ 0) ⊎ (dst_rank peer b ≡ 1)
unfolding dst_rank
dst_rank-cases none b = inr refl
dst_rank-cases (some p) b = elim (Bool-cases (not (p == "") && b.dst == p)) [
  | inl hit ↦ inl (rw hit refl)
  | inr miss ↦ inr (rw miss refl)
]

lower_parts :
    (m p n q : ℕ) (x y : ℤ)
    → lower n q y m p x ≡ false
    → (m < n) ⊎ ((m ≡ n) × ((p < q) ⊎ ((p ≡ q) × (ltb_ℤ y x ≡ false))))
lower_parts m p n q x y h = ground (arith, h)

rank_below : {p q : ℕ} → (p ≡ 0) ⊎ (p ≡ 1) → (q ≡ 0) ⊎ (q ≡ 1) → p < q → p ≡ 0
rank_below p q closer = omega (arith, p, q, closer)

pub not_precedes :
    (peer : Option String) (a b : Bundle) → precedes peer b a ≡ false → MayPrecede peer a b
not_precedes peer a b h m n ra rb =
    let parts : (m < n)
        ⊎ ((m ≡ n)
            × ((dst_rank peer a < dst_rank peer b)
                ⊎ ((dst_rank peer a ≡ dst_rank peer b)
                    × (ltb_ℤ b.created_at a.created_at ≡ false)))) =
      rw (type_rank-HasRank a m ra, type_rank-HasRank b n rb) at
        (lower_parts (type_rank a) (dst_rank peer a) (type_rank b) (dst_rank peer b) a.created_at
          b.created_at (sym (precedes-lower peer b a) ∙ h)) in
    elim parts [
      | inl lower_rank ↦ inl lower_rank
      | inr (same_rank, inl closer) ↦ inr (
        same_rank,
        inl (
          for_peer peer a (rank_below (dst_rank-cases peer a) (dst_rank-cases peer b) closer),
          λ mine. absurd (omega (arith, dst_rank-IsForPeer peer b mine, closer)),
        ),
      )
      | inr (same_rank, inr (same_dst, older)) ↦ inr (
        same_rank,
        inr (λ mine. for_peer peer a (same_dst ∙ dst_rank-IsForPeer peer b mine), older),
      )
    ]
