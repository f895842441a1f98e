-- ===== src/Authority/Standing.antt =====
-- What a confirmation does to every balance and to every last sequence number.
use meshpay.Base.{
  ◌≡◌, ap, ◌∙◌, true, false, some, ◌⊎◌, inl, inr, String, ◌==◌, if◌then◌else◌, Dict, lookup, ℤ,
  ◌+ℤ◌, ◌-ℤ◌, leb_ℤ, arith,
}
use meshpay.Runtime.{Runtime}
use meshpay.Transaction.Confirmation.{ConfirmationOrder}
use meshpay.Registry.{RegistryFile}
use meshpay.Wallet.{can_debit}
use meshpay.Account.{Account, new_account}
use meshpay.Authority.{apply_confirmation, handle_confirmation}
use meshpay.Authority.Monad.{World}
use meshpay.Authority.Verdict.{Passes}
use meshpay.Authority.Open.{lookup-opened}
use meshpay.Authority.Outcome.{prepared, handle_confirmation-Outcome}
use meshpay.Authority.Movement.{balance_in, sequence_in, share_of, sequence-stored}
use meshpay.Authority.Confirm.{before, still_known, applied, opened-balance, applied-balance}

-- Every address has the balance and the last sequence number that it had.
abbrev pub IsStanding : Dict Account → Dict Account → Type 0
IsStanding d' d =
    (j : String) → (balance_in d' j ≡ balance_in d j) × (sequence_in d' j ≡ sequence_in d j)

module _ (rt : Runtime) (now : ℤ) (c : ConfirmationOrder) where
  abbrev sender : String
  sender = c.transfer_order.sender

  abbrev amount : ℤ
  amount = c.transfer_order.amount

  -- The amount has moved, and the sender's last sequence number is the order's.
  abbrev pub HasMoved : Dict Account → Dict Account → Type 0
  HasMoved d' d =
      (j : String)
      → (balance_in d' j ≡ (
          balance_in d j
          -ℤ share_of sender j amount
          +ℤ share_of c.transfer_order.recipient j amount))
        × (sequence_in d' j
            ≡ (if sender == j then c.transfer_order.sequence_number else sequence_in d j))

  module _ (w : World) where
    opened-sequence :
        (j : String) → sequence_in (before rt now c w) j ≡ sequence_in w.node.accounts j
    unfolding new_account
    opened-sequence j =
        ground (arith, lookup-opened now c.transfer_order.recipient w.node.accounts j)

    applied-sequence :
        (file' : RegistryFile) (p : Passes rt c w file') (j : String)
        → sequence_in (apply_confirmation rt now c (prepared rt now c w file')).1.node.accounts j
          ≡ (if sender == j
              then c.transfer_order.sequence_number
              else sequence_in w.node.accounts j)
    applied-sequence file' p j =
        let (b, e, fb, fe, after, total) = applied rt now c w file' p in
        ap (λ d. sequence_in d j) after
        ∙ sequence-stored rt now c (before rt now c w) p.account b e
            (still_known rt now c w file' p) fb fe p.later j
        ∙ ap (λ x. if sender == j then c.transfer_order.sequence_number else x) (opened-sequence j)

    -- Nothing has changed, or a payment has been made that the sender's account allowed.
    pub IsStanding-cases :
        IsStanding (handle_confirmation rt now c w).1.node.accounts w.node.accounts
        ⊎ ((a : Account) × (lookup sender w.node.accounts ≡ some a)
            × (can_debit a.balance amount ≡ true)
            × (leb_ℤ c.transfer_order.sequence_number a.sequence_number ≡ false)
            × HasMoved (handle_confirmation rt now c w).1.node.accounts w.node.accounts)
    IsStanding-cases =
        let (file', outcome) = handle_confirmation-Outcome rt now c w in
        elim outcome [
          | inl h ↦ inl λ j. (rw h, rw h)
          | inr (inl (e, h)) ↦ inl λ j. (rw h, rw h)
          | inr (inr (inl (h, p))) ↦ inl λ j. (
            ap (λ r. balance_in r.1.node.accounts j) h ∙ opened-balance rt now c w j,
            ap (λ r. sequence_in r.1.node.accounts j) h ∙ opened-sequence j,
          )
          | inr (inr (inr (p, fresh, h))) ↦ inr (
            p.account,
            p.known,
            p.covered,
            p.later,
            λ j. (
              ap (λ r. balance_in r.1.node.accounts j) h ∙ applied-balance rt now c w file' p j,
              ap (λ r. sequence_in r.1.node.accounts j) h ∙ applied-sequence file' p j,
            ),
          )
        ]
