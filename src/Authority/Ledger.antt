-- ===== src/Authority/Ledger.antt =====
-- An authority as a ledger: what it holds of its accounts, without the accounts.
use mathlib.Core.Path.{fun_ext, subst}
use meshpay.Base.{
  ◌≡◌, refl, sym, ap, ◌∙◌, true, false, String, ℤ, ◌+ℤ◌, ◌-ℤ◌, leb_ℤ, ◌==◌, eq_iff, if◌then◌else◌,
  List, [], ◌∷◌, Dict, lookup-insert, ◌⊎◌, inl, inr, arith,
}
use meshpay.Runtime.{Runtime}
use meshpay.Transaction.Confirmation.{ConfirmationOrder}
use meshpay.Adapter.{PaymentObject, confirmation_order}
use meshpay.Wallet.{can_debit}
use meshpay.Account.{Account}
use meshpay.Authority.{on_payment_object}
use meshpay.Authority.Monad.{World}
use meshpay.Authority.Movement.{balance_in, sequence_in, share_of}
use meshpay.Authority.Standing.{IsStanding-cases, IsStanding}
use meshpay.Authority.Trace.{run, Touched, on_payment_object-cases}

-- A balance and the number of the last payment for every address.
pub record Ledger : Type 0 where
  pub balances : String → ℤ
  pub last_numbers : String → ℤ

pub record Payment : Type 0 where
  pub sender : String
  pub recipient : String
  pub amount : ℤ
  pub number : ℤ

abbrev pub ledger_of : Dict Account → Ledger
ledger_of d = record { balances = balance_in d; last_numbers = sequence_in d }

abbrev pub payment_of : ConfirmationOrder → Payment
payment_of c = record {
  sender = c.transfer_order.sender;
  recipient = c.transfer_order.recipient;
  amount = c.transfer_order.amount;
  number = c.transfer_order.sequence_number;
}

-- The amount leaves the sender and reaches the recipient.
unfoldable pub transfer : Payment → Ledger → Ledger
transfer p l = record {
  balances = λ j. l.balances j -ℤ share_of p.sender j p.amount +ℤ share_of p.recipient j p.amount;
  last_numbers = λ j. if p.sender == j then p.number else l.last_numbers j;
}

unfoldable pub transfer_all : List Payment → Ledger → Ledger
transfer_all [] l = l
transfer_all (p ∷ ps) l = transfer_all ps (transfer p l)

-- The amount is positive, the sender has it, and the number is above that of its last payment.
abbrev pub IsAllowed : Payment → Ledger → Type 0
IsAllowed p l =
    (can_debit (l.balances p.sender) p.amount ≡ true)
    × (leb_ℤ p.number (l.last_numbers p.sender) ≡ false)

-- Each payment is allowed in the ledger that those before it leave.
unfoldable pub AreAllowed : List Payment → Ledger → Type 0
AreAllowed [] l = Unit
AreAllowed (p ∷ ps) l = IsAllowed p l × AreAllowed ps (transfer p l)

-- The payments are those of some of the confirmations, in their order.
pub data Picks : List (ℤ × PaymentObject) → List Payment → Type 0 where
  done : Picks [] []
  skip :
      {o : ℤ × PaymentObject} {objs : List (ℤ × PaymentObject)} {ps : List Payment}
      → Picks objs ps
      → Picks (o ∷ objs) ps
  pick :
      {now : ℤ} {c : ConfirmationOrder} {objs : List (ℤ × PaymentObject)} {ps : List Payment}
      → Picks objs ps
      → Picks ((now, confirmation_order c) ∷ objs) (payment_of c ∷ ps)

same_ledger :
    (l l' : Ledger)
    → ((j : String) → (l.balances j ≡ l'.balances j) × (l.last_numbers j ≡ l'.last_numbers j))
    → l ≡ l'
same_ledger l l' same =
    ap (λ f. record l { balances = f }) (fun_ext λ j. (same j).0)
    ∙ ap (λ f. record l' { last_numbers = f }) (fun_ext λ j. (same j).1)

Touched-IsStanding : (d d' : Dict Account) → Touched d d' → IsStanding d' d
Touched-IsStanding d d' (inl same) j =
    (ap (λ e. balance_in e j) same, ap (λ e. sequence_in e j) same)
Touched-IsStanding d d' (inr (k, a, b, known, stored, kept)) j = (
  ap (λ e. balance_in e j) stored
      ∙ ground (arith, lookup-insert k j b d, eq_iff k j, known, ap (λ x. x.balance) kept),
  ap (λ e. sequence_in e j) stored
      ∙ ground (arith, lookup-insert k j b d, eq_iff k j, known, ap (λ x. x.sequence_number) kept),
)

module _ (rt : Runtime) where
  -- One object leaves the ledger as it is, or makes the payment of a confirmation that is allowed.
  one_object :
      (now : ℤ) (obj : PaymentObject) (w : World)
      → (ledger_of (on_payment_object rt now obj w).1.node.accounts ≡ ledger_of w.node.accounts)
        ⊎ ((c : ConfirmationOrder) × (obj ≡ confirmation_order c)
            × IsAllowed (payment_of c) (ledger_of w.node.accounts)
            × (ledger_of (on_payment_object rt now obj w).1.node.accounts
                ≡ transfer (payment_of c) (ledger_of w.node.accounts)))
  unfolding transfer
  one_object now obj w = elim (on_payment_object-cases rt now obj w) [
    | inl touched ↦ inl (same_ledger _ _ (Touched-IsStanding w.node.accounts _ touched))
    | inr (c, is, same) ↦ elim (IsStanding-cases rt now c w) [
      | inl kept ↦ inl (ap (λ u. ledger_of u.node.accounts) same ∙ same_ledger _ _ kept)
      | inr (a, known, covered, later, moved) ↦ inr (
        c,
        is,
        (
          ap (λ x. can_debit x c.transfer_order.amount) (rw (balance_in, known)) ∙ covered,
          ap (leb_ℤ c.transfer_order.sequence_number) (rw (sequence_in, known)) ∙ later,
        ),
        ap (λ u. ledger_of u.node.accounts) same ∙ same_ledger _ _ moved,
      )
    ]
  ]

  -- An authority refines a ledger: whatever payment objects it handles, in whatever order, its
  -- balances and last sequence numbers become those that some of the payments that the objects
  -- confirm, in their order, make of them. Each of these is positive, covered by what its sender has
  -- at that point, and numbered above its sender's last one.
  pub run-refines :
      (objs : List (ℤ × PaymentObject)) (w : World)
      → (ps : List Payment) × Picks objs ps
        × AreAllowed ps (ledger_of w.node.accounts)
        × (ledger_of (run rt objs w).node.accounts ≡ transfer_all ps (ledger_of w.node.accounts))
  unfolding transfer_all AreAllowed
  run-refines [] w = ([], done, tt, refl)
  run-refines ((now, obj) ∷ objs) w =
      let (ps, picks, allowed, ends) = run-refines objs (on_payment_object rt now obj w).1 in
      elim (one_object now obj w) [
        | inl same ↦
            (ps, skip picks, subst (AreAllowed ps) same allowed, ends ∙ ap (transfer_all ps) same)
        | inr (c, is, this, moved) ↦ (
          payment_of c ∷ ps,
          subst (λ o. Picks ((now, o) ∷ objs) (payment_of c ∷ ps)) (sym is) (pick picks),
          (this, subst (AreAllowed ps) moved allowed),
          ends ∙ ap (transfer_all ps) moved,
        )
      ]
