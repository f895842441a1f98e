-- ===== src/Authority/Solvent.antt =====
-- Balances and what is due: no account goes below zero.
use meshpay.Base.{
  ◌≡◌, ap, ◌∙◌, true, some, inl, inr, String, eq_iff, lookup, ℤ, pos, ◌+ℤ◌, ◌-ℤ◌, int_laws, leb_ℤ,
  Dict,
}
use meshpay.Runtime.{Runtime}
use meshpay.Transaction.Confirmation.{ConfirmationOrder}
use meshpay.Wallet.{can_debit}
use meshpay.Account.{Account}
use meshpay.Authority.{handle_confirmation}
use meshpay.Authority.Monad.{World}
use meshpay.Authority.Movement.{balance_in, share_of}
use meshpay.Authority.Standing.{IsStanding-cases}

-- Every balance is at least zero.
abbrev pub IsSolvent : Dict Account → Type 0
IsSolvent d = (j : String) → leb_ℤ (pos 0) (balance_in d j) ≡ true

covered-solvent :
    (d : Dict Account) (sender recipient j : String) (amount : ℤ) (a : Account)
    → IsSolvent d
    → lookup sender d ≡ some a
    → can_debit a.balance amount ≡ true
    → leb_ℤ (pos 0) (balance_in d j -ℤ share_of sender j amount +ℤ share_of recipient j amount)
      ≡ true
covered-solvent d sender recipient j amount a solvent known covered =
    grind (int_laws, solvent j, solvent sender, eq_iff sender j, known, covered)

pub handle_confirmation-IsSolvent :
    (rt : Runtime) (now : ℤ) (c : ConfirmationOrder) (w : World)
    → IsSolvent w.node.accounts
    → IsSolvent (handle_confirmation rt now c w).1.node.accounts
handle_confirmation-IsSolvent rt now c w solvent j = elim (IsStanding-cases rt now c w) [
  | inl same ↦ ap (leb_ℤ (pos 0)) (same j).0 ∙ solvent j
  | inr (a, known, covered, later, moved) ↦
      ap (leb_ℤ (pos 0)) (moved j).0
      ∙ covered-solvent w.node.accounts c.transfer_order.sender c.transfer_order.recipient j
          c.transfer_order.amount a solvent known covered
]
