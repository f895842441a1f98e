-- ===== src/Authority/Trace.antt =====
-- An authority over any sequence of payment objects.
use mathlib.Core.Path.{subst, sym}
use meshpay.Authority.Transfer.{handle_transfer-pending, starts-signing}
use meshpay.Authority.Solvent.{IsSolvent, handle_confirmation-IsSolvent}
use meshpay.Base.{
  ◌≡◌, refl, ap, ◌∙◌, false, Option, none, some, ◌⊎◌, inl, inr, lookup, insert, ℤ, int_laws, arith,
  List, [], ◌∷◌, Bool-cases, Dict, String, Option-cases, lookup-insert, eq_iff,
}
use meshpay.Value.{Result, ok, err}
use meshpay.Runtime.{Runtime}
use meshpay.Transaction.Transfer.{TransferOrder}
use meshpay.Transaction.Signed.{SignedTransferOrder}
use meshpay.Transaction.Confirmation.{ConfirmationOrder}
use meshpay.Adapter.{PaymentObject, transfer_order, signed_transfer_order, confirmation_order}
use meshpay.Quorum.{WeightSnapshot}
use meshpay.Registry.{initialize, RegistryFile}
use meshpay.Account.{Account}
use meshpay.Authority.{
  refresh_weight_state, sign_order, sign_new, handle_transfer, handle_confirmation,
  on_payment_object, validate_transfer,
}
use meshpay.Authority.Monad.{
  World, M, pure, gets, with_registry, ◌>>=◌, ◌>>◌, and_then, commit, store_account,
}
use meshpay.Authority.Apply.{refresh-accounts}
use meshpay.Authority.Balances.{total_balance, total_balance-insert}
use meshpay.Authority.Confirm.{handle_confirmation-total_balance}

-- Handling objects one after another, each at its time. An exception ends one handler, not the node.
abbrev pub run : Runtime → List (ℤ × PaymentObject) → World → World
run rt [] w = w
run rt ((now, obj) ∷ objs) w = run rt objs (on_payment_object rt now obj w).1

-- The accounts as they were, or with one account in which the balance is as it was.
abbrev pub Touched : Dict Account → Dict Account → Type 0
Touched d d' =
    (d' ≡ d)
    ⊎ ((k : String) × (a b : Account) × (lookup k d ≡ some a)
        × (d' ≡ insert k b d)
        × (b ≡ record a {
          pending_confirmation = b.pending_confirmation;
          last_update = b.last_update;
        }))

module _ (rt : Runtime) (now : ℤ) (order : TransferOrder) (a : Account) where
  -- `sign_new` after the refresh.
  abbrev sign_rest : M (Option SignedTransferOrder)
  sign_rest = do
    s ← with_registry (initialize rt)
    name ← gets (λ n. n.name)
    let signed = sign_order rt now name order s
    store_account order.sender (record a { pending_confirmation = some signed; last_update = now })
    pure (some signed)

  module _ (d : Dict Account) (known : lookup order.sender d ≡ some a) where
    stored_or_raised :
        (w : World) (r : Result (WeightSnapshot × RegistryFile))
        → w.node.accounts ≡ d
        → Touched d
            (and_then
              (λ (s : WeightSnapshot). gets (λ n. n.name) >>= λ name.
                store_account order.sender (record a {
                  pending_confirmation = some (sign_order rt now name order s);
                  last_update = now;
                })
                >> pure (some (sign_order rt now name order s)))
              (commit w r)).1.node.accounts
    stored_or_raised w (ok (s, file')) same = inr (
      order.sender,
      a,
      record a {
        pending_confirmation = some (sign_order rt now w.node.name order s);
        last_update = now;
      },
      known,
      ap
          (insert order.sender (record a {
            pending_confirmation = some (sign_order rt now w.node.name order s);
            last_update = now;
          }))
          same,
      refl,
    )
    stored_or_raised w (err e) same = inl same

    rest-Touched :
        (r : Result (Unit {0}) × World)
        → r.1.node.accounts ≡ d
        → Touched d (and_then (λ _. sign_rest) r).1.node.accounts
    rest-Touched (ok _, w) same = stored_or_raised w (initialize rt w.node.registry w.file) same
    rest-Touched (err e, w) same = inl same

  sign_new-Touched :
      (w : World)
      → lookup order.sender w.node.accounts ≡ some a
      → Touched w.node.accounts (sign_new rt now order a w).1.node.accounts
  unfolding sign_new
  sign_new-Touched w known =
      rest-Touched w.node.accounts known (refresh_weight_state rt w) (refresh-accounts rt w)

module _ (rt : Runtime) (now : ℤ) (order : TransferOrder) (w : World) where
  invalid :
      validate_transfer rt order w.node ≡ false → handle_transfer rt now order w ≡ (ok none, w)
  unfolding handle_transfer
  invalid h = rw (handle_transfer, h)

  no_sender : lookup order.sender w.node.accounts ≡ none → validate_transfer rt order w.node ≡ false
  unfolding validate_transfer
  no_sender h = ground arith

  handle_transfer-Touched : Touched w.node.accounts (handle_transfer rt now order w).1.node.accounts
  handle_transfer-Touched = elim (Bool-cases (validate_transfer rt order w.node)) [
    | inr h ↦ inl (ap (λ r. r.1.node.accounts) (invalid h))
    | inl valid ↦ elim (Option-cases (lookup order.sender w.node.accounts)) [
      | inl missing ↦ inl (ap (λ r. r.1.node.accounts) (invalid (no_sender missing)))
      | inr (a, known) ↦ elim (Option-cases a.pending_confirmation) [
        | inr (existing, pending) ↦ inl (
            ap (λ r. r.1.node.accounts)
              (handle_transfer-pending rt now order w a existing known pending))
        | inl nothing ↦
            subst (λ r. Touched w.node.accounts r.1.node.accounts)
              (sym (starts-signing rt now order w a valid known nothing))
              (sign_new-Touched rt now order a w known)
      ]
    ]
  ]

then_pure-world :
    {A B : Type 0} (f : A → B) (r : Result A × World) → (and_then (λ a. pure (f a)) r).1 ≡ r.1
then_pure-world f (ok a, w) = refl
then_pure-world f (err e, w) = refl

-- Only confirmations move balances.
pub on_payment_object-cases :
    (rt : Runtime) (now : ℤ) (obj : PaymentObject) (w : World)
    → Touched w.node.accounts (on_payment_object rt now obj w).1.node.accounts
      ⊎ ((c : ConfirmationOrder) × (obj ≡ confirmation_order c)
          × ((on_payment_object rt now obj w).1 ≡ (handle_confirmation rt now c w).1))
unfolding on_payment_object
on_payment_object-cases rt now (transfer_order order) w = inl (
    subst (λ u. Touched w.node.accounts u.node.accounts)
      (sym (
        then_pure-world
          (λ (signed : Option SignedTransferOrder). elim signed [
            | none ↦ []
            | some s ↦ signed_transfer_order s ∷ []
          ])
          (handle_transfer rt now order w)))
      (handle_transfer-Touched rt now order w))
on_payment_object-cases rt now (signed_transfer_order s) w = inl (inl refl)
on_payment_object-cases rt now (confirmation_order c) w =
    inr (c, refl, then_pure-world (λ _. []) (handle_confirmation rt now c w))

Touched-total : (d d' : Dict Account) → Touched d d' → total_balance d' ≡ total_balance d
Touched-total d d' (inl same) = ap total_balance same
Touched-total d d' (inr (k, a, b, known, stored, kept)) =
    ap total_balance stored
    ∙ grind (int_laws, total_balance-insert k b a d known, ap (λ x. x.balance) kept)

Touched-IsSolvent : (d d' : Dict Account) → Touched d d' → IsSolvent d → IsSolvent d'
Touched-IsSolvent d d' (inl same) solvent = subst IsSolvent (sym same) solvent
Touched-IsSolvent d d' (inr (k, a, b, known, stored, kept)) solvent =
    subst IsSolvent (sym stored)
      λ j. grind (int_laws, lookup-insert k j b d, ap (λ x. x.balance) kept, eq_iff k j, solvent j)

module _ (rt : Runtime) where
  on_payment_object-total :
      (now : ℤ) (obj : PaymentObject) (w : World)
      → total_balance (on_payment_object rt now obj w).1.node.accounts
        ≡ total_balance w.node.accounts
  on_payment_object-total now obj w = elim (on_payment_object-cases rt now obj w) [
    | inl touched ↦ Touched-total w.node.accounts _ touched
    | inr (c, is, same) ↦
        ap (λ u. total_balance u.node.accounts) same ∙ handle_confirmation-total_balance rt now c w
  ]

  on_payment_object-IsSolvent :
      (now : ℤ) (obj : PaymentObject) (w : World)
      → IsSolvent w.node.accounts
      → IsSolvent (on_payment_object rt now obj w).1.node.accounts
  on_payment_object-IsSolvent now obj w solvent = elim (on_payment_object-cases rt now obj w) [
    | inl touched ↦ Touched-IsSolvent w.node.accounts _ touched solvent
    | inr (c, is, same) ↦
        subst (λ u. IsSolvent u.node.accounts) (sym same)
          (handle_confirmation-IsSolvent rt now c w solvent)
  ]

  -- Whatever payment objects an authority handles, in whatever order, its balances keep their sum, and
  -- where none was negative at the start none is at the end.
  pub run-conserves :
      (objs : List (ℤ × PaymentObject)) (w : World)
      → IsSolvent w.node.accounts
      → (total_balance (run rt objs w).node.accounts ≡ total_balance w.node.accounts)
        × IsSolvent (run rt objs w).node.accounts
  run-conserves [] w solvent = (refl, solvent)
  run-conserves ((now, obj) ∷ objs) w solvent =
      let next = (on_payment_object rt now obj w).1 in
      let (total, good) = run-conserves objs next (on_payment_object-IsSolvent now obj w solvent) in
      (total ∙ on_payment_object-total now obj w, good)
