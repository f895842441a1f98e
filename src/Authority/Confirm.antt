-- ===== src/Authority/Confirm.antt =====
-- What `handle_confirmation` does, from its answer.
use mathlib.Core.Path.{sym}
use meshpay.Base.{
  ◌≡◌, ap, ◌∙◌, ◌≢◌, Bool, true, false, none, some, inl, inr, String, Dict, lookup, insert, eq_refl,
  ℤ, ◌+ℤ◌, ◌-ℤ◌, leb_ℤ, arith,
}
use meshpay.Value.{Result, ok, err}
use meshpay.Runtime.{Runtime}
use meshpay.Transaction.Status.{TransactionStatus}
use meshpay.Transaction.Confirmation.{ConfirmationOrder}
use meshpay.Registry.{RegistryFile}
use meshpay.Account.{Account, new_account}
use meshpay.Authority.{
  balance_of, refresh_weight_state, apply_confirmation, handle_confirmation, settle_sender,
}
use meshpay.Authority.Monad.{World, pure, ◌>>◌, and_then}
use meshpay.Authority.Balances.{total_balance}
use meshpay.Authority.Verdict.{Passes}
use meshpay.Authority.Open.{opened, opened-total, lookup-opened}
use meshpay.Authority.Outcome.{prepared, handle_confirmation-Outcome}
use meshpay.Authority.Apply.{debited, credited, stored, refresh-accounts, apply_confirmation_lem}
use meshpay.Authority.Movement.{balance_in, share_of, balance-stored, sender-stored, other-stored}

-- A refresh and an answer leave the accounts alone.
refresh_then-accounts :
    (rt : Runtime) (w : World)
    → ((refresh_weight_state rt >> pure true) w).1.node.accounts ≡ w.node.accounts
refresh_then-accounts rt w = go (refresh_weight_state rt w) (refresh-accounts rt w)
  where
    go :
        {d : Dict Account} (r : Result (Unit {0}) × World)
        → r.1.node.accounts ≡ d
        → (and_then (λ _. pure true) r).1.node.accounts ≡ d
    go (ok u, w') h = h
    go (err e, w') h = h

module _ (rt : Runtime) (now : ℤ) (c : ConfirmationOrder) (w : World) where
  abbrev sender : String
  sender = c.transfer_order.sender

  abbrev recipient : String
  recipient = c.transfer_order.recipient

  abbrev amount : ℤ
  amount = c.transfer_order.amount

  -- The accounts when the confirmation is applied.
  abbrev pub before : Dict Account
  before = opened now recipient w.node.accounts

  pub opened-balance : (j : String) → balance_in before j ≡ balance_in w.node.accounts j
  unfolding new_account
  opened-balance j = ground (arith, lookup-opened now recipient w.node.accounts j)

  module _ (file' : RegistryFile) (p : Passes rt c w file') where
    pub still_known : lookup sender before ≡ some p.account
    still_known = lookup-opened now recipient w.node.accounts sender ∙ rw p.known

    recipient_known : lookup recipient before ≢ none
    recipient_known h = absurd (
        ground (arith, h, lookup-opened now recipient w.node.accounts recipient, eq_refl recipient))

    -- The accounts that an application leaves, and where they come from.
    pub applied :
        (b e : Account) × (lookup recipient
            (insert sender (settle_sender rt now c (debited rt now c p.account)) before)
          ≡ some b)
        × (lookup sender (
              insert recipient
                (credited rt now c b)
                (insert sender (settle_sender rt now c (debited rt now c p.account)) before))
            ≡ some e)
        × ((apply_confirmation rt now c (prepared rt now c w file')).1.node.accounts
            ≡ stored rt now c before p.account b e)
        × (total_balance (stored rt now c before p.account b e) ≡ total_balance before)
    applied =
        let w1 = prepared rt now c w file' in
        let (b, e, fb, fe, run, total) =
          apply_confirmation_lem rt now c w1 p.account still_known p.covered recipient_known in
        (
          b,
          e,
          fb,
          fe,
          ap (λ r. r.1.node.accounts) run
              ∙ refresh_then-accounts rt (record w1 {
                node = record w1.node { accounts = stored rt now c before p.account b e };
              }),
          total,
        )

    pub applied-balance :
        (j : String)
        → balance_in (apply_confirmation rt now c (prepared rt now c w file')).1.node.accounts j
          ≡ balance_in w.node.accounts j -ℤ share_of sender j amount +ℤ share_of recipient j amount
    applied-balance j =
        let (b, e, fb, fe, after, total) = applied in
        ap (λ d. balance_in d j) after
        ∙ balance-stored rt now c before p.account b e still_known fb fe j
        ∙ ap (λ x. x -ℤ share_of sender j amount +ℤ share_of recipient j amount) (opened-balance j)

    applied-total :
        total_balance (apply_confirmation rt now c (prepared rt now c w file')).1.node.accounts
        ≡ total_balance w.node.accounts
    applied-total =
        let (b, e, fb, fe, after, total) = applied in
        ap total_balance after ∙ total ∙ opened-total now recipient w.node.accounts

  -- Whatever the answer, an exception included, the sum of all balances stays the same.
  pub handle_confirmation-total_balance :
      total_balance (handle_confirmation rt now c w).1.node.accounts ≡ total_balance w.node.accounts
  handle_confirmation-total_balance =
      let (file', outcome) = handle_confirmation-Outcome rt now c w in
      elim outcome [
        | inl h ↦ ap (λ r. total_balance r.1.node.accounts) h
        | inr (inl (e, h)) ↦ ap (λ r. total_balance r.1.node.accounts) h
        | inr (inr (inl (h, p))) ↦
            ap (λ r. total_balance r.1.node.accounts) h ∙ opened-total now recipient w.node.accounts
        | inr (inr (inr (p, fresh, h))) ↦
            ap (λ r. total_balance r.1.node.accounts) h ∙ applied-total file' p
      ]

  not_yes :
      (r : Result Bool) {w1 w' : World}
      → r ≢ ok true
      → handle_confirmation rt now c w ≡ (r, w1)
      → handle_confirmation rt now c w ≢ (ok true, w')
  not_yes r differs h accepted = differs (ap (λ x. x.0) (sym h ∙ accepted))

  module _ (w' : World) (accepted : handle_confirmation rt now c w ≡ (ok true, w')) where
    -- After a yes the tests have passed and the confirmation has been applied.
    pub yes-applied :
        (file' : RegistryFile) × Passes rt c w file'
        × (w'.node.accounts
            ≡ (apply_confirmation rt now c (prepared rt now c w file')).1.node.accounts)
    yes-applied =
        let (file', outcome) = handle_confirmation-Outcome rt now c w in
        elim outcome [
          | inl h ↦ absurd (not_yes (ok false) (λ e. cc) h accepted)
          | inr (inl (e, h)) ↦ absurd (not_yes (err e) (λ e. cc) h accepted)
          | inr (inr (inl (h, p))) ↦ absurd (not_yes (ok false) (λ e. cc) h accepted)
          | inr (inr (inr (p, fresh, h))) ↦
              (file', p, ap (λ r. r.1.node.accounts) (sym accepted ∙ h))
        ]

    balance-after :
        (j : String)
        → balance_in w'.node.accounts j
          ≡ balance_in w.node.accounts j -ℤ share_of sender j amount +ℤ share_of recipient j amount
    balance-after j =
        let (file', p, to_applied) = yes-applied in
        ap (λ d. balance_in d j) to_applied ∙ applied-balance file' p j

    -- After a yes the amount has moved: each balance is the one before, less the amount at the sender's
    -- address, plus the amount at the recipient's.
    pub handle_confirmation-moves :
        (j : String)
        → balance_of w'.node j
          ≡ balance_of w.node j -ℤ share_of sender j amount +ℤ share_of recipient j amount
    unfolding balance_of
    handle_confirmation-moves j = balance-after j

    -- After a yes the sender's account has the order's sequence number, which is above the one before,
    -- nothing pending, and the confirmation, marked as confirmed, under the order's id.
    pub handle_confirmation-settles :
        (a a' : Account) × (lookup sender w.node.accounts ≡ some a)
        × (lookup sender w'.node.accounts ≡ some a')
        × (leb_ℤ c.transfer_order.sequence_number a.sequence_number ≡ false)
        × (a'.sequence_number ≡ c.transfer_order.sequence_number)
        × (a'.pending_confirmation ≡ none)
        × (lookup (rt.uuid_str c.transfer_order.order_id) a'.confirmed_transfers
            ≡ some (record c { status = TransactionStatus.confirmed }))
    handle_confirmation-settles =
        let (file', p, to_applied) = yes-applied in
        let (b, e, fb, fe, after, total) = applied file' p in
        let (a', found, sequence, pending, confirmed) =
          sender-stored rt now c before p.account b e (still_known file' p) fb fe p.later in
        (
          p.account,
          a',
          p.known,
          ap (lookup sender) (to_applied ∙ after) ∙ found,
          p.later,
          sequence,
          pending,
          confirmed,
        )

    -- After a yes every account but the sender's that was there is as before, its balance and its time
    -- aside.
    pub handle_confirmation-keeps :
        (j : String) (x : Account)
        → j ≢ sender
        → lookup j w.node.accounts ≡ some x
        → (y : Account) × (lookup j w'.node.accounts ≡ some y)
          × (y ≡ record x { balance = y.balance; last_update = y.last_update })
    handle_confirmation-keeps j x ne found =
        let (file', p, to_applied) = yes-applied in
        let (b, e, fb, fe, after, total) = applied file' p in
        let (y, there, same) =
          other-stored rt now c before p.account b e (still_known file' p) fb fe j x ne
            (lookup-opened now recipient w.node.accounts j ∙ rw found) in
        (y, ap (lookup j) (to_applied ∙ after) ∙ there, same)
