-- ===== src/Authority/Ordering.antt =====
-- Sequence numbers over any history of an authority.
use mathlib.Core.Path.{subst, sym}
use meshpay.Base.{
  ◌≡◌, ap, ◌∙◌, Bool, true, false, some, inl, inr, String, ◌==◌, eq_iff, eq_refl, lookup,
  lookup-insert, ℤ, leb_ℤ, arith, Dict, List, [], ◌∷◌, Bool-cases,
}
use meshpay.Value.{Result, ok}
use meshpay.Runtime.{Runtime}
use meshpay.Transaction.Confirmation.{ConfirmationOrder}
use meshpay.Adapter.{PaymentObject}
use meshpay.Account.{Account}
use meshpay.Registry.{RegistryFile}
use meshpay.Authority.{handle_confirmation, on_payment_object, apply_confirmation}
use meshpay.Authority.Monad.{World}
use meshpay.Authority.Verdict.{Passes}
use meshpay.Authority.Open.{lookup-opened}
use meshpay.Authority.Outcome.{prepared, handle_confirmation-Outcome}
use meshpay.Authority.Apply.{stored}
use meshpay.Authority.Movement.{sender-stored, other-stored}
use meshpay.Authority.Confirm.{applied, still_known, before, handle_confirmation-settles}
use meshpay.Authority.Replay.{stale_refused}
use meshpay.Authority.Trace.{Touched, run, on_payment_object-cases}

-- Each account of the first dict is in the second, and its sequence number has not gone down.
abbrev pub IsLater : Dict Account → Dict Account → Type 0
IsLater d d' =
    (k : String) (a : Account) (known : lookup k d ≡ some a)
    → (a' : Account) × (lookup k d' ≡ some a') × (leb_ℤ a.sequence_number a'.sequence_number ≡ true)

leb_refl : (n : ℤ) → leb_ℤ n n ≡ true
leb_refl n = ground arith

leb_trans : (a b c : ℤ) → leb_ℤ a b ≡ true → leb_ℤ b c ≡ true → leb_ℤ a c ≡ true
leb_trans a b c h k = ground (arith, h, k)

IsLater-refl : (d : Dict Account) → IsLater d d
IsLater-refl d k a known = (a, known, leb_refl a.sequence_number)

IsLater-trans : (d d' d'' : Dict Account) → IsLater d d' → IsLater d' d'' → IsLater d d''
IsLater-trans d d' d'' h h' k a known =
    let (a', known', up) = h k a known in
    let (a'', known'', up') = h' k a' known' in
    (a'', known'', leb_trans a.sequence_number a'.sequence_number a''.sequence_number up up')

Touched-IsLater : (d d' : Dict Account) → Touched d d' → IsLater d d'
Touched-IsLater d d' (inl same) = subst (IsLater d) (sym same) (IsLater-refl d)
Touched-IsLater d d' (inr (j, x, y, at_j, stored, kept)) = λ k a known. elim (Bool-cases (j == k)) [
  | inl hit ↦ (
    y,
    ap (lookup k) stored ∙ lookup-insert j k y d ∙ rw hit,
    grind (
      arith,
      ap (λ z. z.sequence_number) kept,
      at_j,
      known,
      eq_iff j k,
      hit,
      leb_refl a.sequence_number,
    ),
  )
  | inr miss ↦
      (a, ap (lookup k) stored ∙ lookup-insert j k y d ∙ rw miss known, leb_refl a.sequence_number)
]

module _ (rt : Runtime) (now : ℤ) (c : ConfirmationOrder) (w : World) where
  known_before :
      (k : String) (a : Account)
      → lookup k w.node.accounts ≡ some a
      → lookup k (before rt now c w) ≡ some a
  known_before k a known = lookup-opened now c.transfer_order.recipient w.node.accounts k ∙ rw known

  opened-IsLater : IsLater w.node.accounts (before rt now c w)
  opened-IsLater k a known = (a, known_before k a known, leb_refl a.sequence_number)

  -- The sender's account has a lower number than the order.
  sender-below :
      (file' : RegistryFile) (p : Passes rt c w file') (k : String) (a : Account)
      → (c.transfer_order.sender == k) ≡ true
      → lookup k w.node.accounts ≡ some a
      → leb_ℤ a.sequence_number c.transfer_order.sequence_number ≡ true
  sender-below file' p k a hit known =
      let same : p.account ≡ a =
        grind (arith, p.known, known, eq_iff c.transfer_order.sender k, hit) in
      subst (λ (x : Account). leb_ℤ x.sequence_number c.transfer_order.sequence_number ≡ true) same
        (ground (arith, p.later))

  applied-IsLater :
      (file' : RegistryFile) (p : Passes rt c w file')
      → IsLater w.node.accounts
          (apply_confirmation rt now c (prepared rt now c w file')).1.node.accounts
  applied-IsLater file' p k a known =
      let d = before rt now c w in
      let (b, e, fb, fe, after, total) = applied rt now c w file' p in
      let there = still_known rt now c w file' p in
      elim (Bool-cases (c.transfer_order.sender == k)) [
        | inl hit ↦
            let (a', found, sequence, pending, confirmed) =
              sender-stored rt now c d p.account b e there fb fe p.later in
            (
              a',
              ap (lookup k) after
                  ∙ ap (λ j. lookup j (stored rt now c d p.account b e))
                      (sym ((eq_iff c.transfer_order.sender k).0 hit))
                  ∙ found,
              ap (leb_ℤ a.sequence_number) sequence ∙ sender-below file' p k a hit known,
            )
        | inr miss ↦
            let (y, found, same) =
              other-stored rt now c d p.account b e there fb fe k a (λ h. cc (h, miss, eq_refl k))
                (known_before k a known) in
            (
              y,
              ap (lookup k) after ∙ found,
              ap (λ (z : Account). leb_ℤ a.sequence_number z.sequence_number) same
                  ∙ leb_refl a.sequence_number,
            )
      ]

  pub handle_confirmation-IsLater :
      IsLater w.node.accounts (handle_confirmation rt now c w).1.node.accounts
  handle_confirmation-IsLater =
      let (file', outcome) = handle_confirmation-Outcome rt now c w in
      let from_end : (r : Result Bool × World)
          → handle_confirmation rt now c w ≡ r
          → IsLater w.node.accounts r.1.node.accounts
          → IsLater w.node.accounts (handle_confirmation rt now c w).1.node.accounts =
        λ r h later.
          subst (λ (u : Result Bool × World). IsLater w.node.accounts u.1.node.accounts) (sym h)
            later in
      elim outcome [
        | inl h ↦ from_end _ h (IsLater-refl w.node.accounts)
        | inr (inl (e, h)) ↦ from_end _ h (IsLater-refl w.node.accounts)
        | inr (inr (inl (h, p))) ↦ from_end _ h opened-IsLater
        | inr (inr (inr (p, fresh, h))) ↦ from_end _ h (applied-IsLater file' p)
      ]

module _ (rt : Runtime) where
  on_payment_object-IsLater :
      (now : ℤ) (obj : PaymentObject) (w : World)
      → IsLater w.node.accounts (on_payment_object rt now obj w).1.node.accounts
  on_payment_object-IsLater now obj w = elim (on_payment_object-cases rt now obj w) [
    | inl touched ↦ Touched-IsLater w.node.accounts _ touched
    | inr (c, is, same) ↦
        subst (λ (u : World). IsLater w.node.accounts u.node.accounts) (sym same)
          (handle_confirmation-IsLater rt now c w)
  ]

  run-IsLater :
      (objs : List (ℤ × PaymentObject)) (w : World)
      → IsLater w.node.accounts (run rt objs w).node.accounts
  run-IsLater [] w = IsLater-refl w.node.accounts
  run-IsLater ((now, obj) ∷ objs) w =
      let next = (on_payment_object rt now obj w).1 in
      IsLater-trans w.node.accounts next.node.accounts (run rt objs next).node.accounts
        (on_payment_object-IsLater now obj w) (run-IsLater objs next)

  -- Once an authority has applied a confirmation, and whatever payment objects it handles after that,
  -- every confirmation for the same sender whose sequence number is not higher, the same one or a
  -- conflicting one, gets a no and changes nothing.
  pub run-no_double_spend :
      (now later : ℤ) (c c' : ConfirmationOrder) (objs : List (ℤ × PaymentObject)) (w w' : World)
      → handle_confirmation rt now c w ≡ (ok true, w')
      → c'.transfer_order.sender ≡ c.transfer_order.sender
      → leb_ℤ c'.transfer_order.sequence_number c.transfer_order.sequence_number ≡ true
      → handle_confirmation rt later c' (run rt objs w') ≡ (ok false, run rt objs w')
  run-no_double_spend now later c c' objs w w' accepted same stale =
      let (a, a', known, found, higher, sequence, pending, confirmed) =
        handle_confirmation-settles rt now c w w' accepted in
      let (a'', still, up) = run-IsLater objs w' c.transfer_order.sender a' found in
      stale_refused rt later c' (run rt objs w') a''
        (ap (λ k. lookup k (run rt objs w').node.accounts) same ∙ still)
        (leb_trans c'.transfer_order.sequence_number c.transfer_order.sequence_number
          a''.sequence_number stale (ap (λ n. leb_ℤ n a''.sequence_number) (sym sequence) ∙ up))
