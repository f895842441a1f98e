-- ===== src/Authority/Apply.antt =====
-- The effect of `handle_confirmation` on the accounts, once the tests have passed.
use meshpay.Base.{
  ◌≡◌, refl, ◌≢◌, true, none, some, String, eq_refl, Dict, lookup, insert, lookup-insert, ℤ, ◌+ℤ◌,
  ◌-ℤ◌, int_laws, arith, Option-cases, inl, inr,
}
use meshpay.Value.{ok}
use meshpay.Runtime.{Runtime}
use meshpay.Transaction.Confirmation.{ConfirmationOrder}
use meshpay.Wallet.{can_debit}
use meshpay.Account.{Account, debit, credit, set_sequence}
use meshpay.Authority.{refresh_weight_state, settle_sender, mark_confirmed, apply_confirmation}
use meshpay.Authority.Monad.{World, pure, ◌>>◌}
use meshpay.Authority.Balances.{total_balance, total_balance-insert}

-- Neither ending of a refresh touches the accounts.
pub refresh-accounts :
    (rt : Runtime) (w : World) → (refresh_weight_state rt w).1.node.accounts ≡ w.node.accounts
unfolding refresh_weight_state
refresh-accounts rt w = ground arith

module _ (rt : Runtime) (now : ℤ) (c : ConfirmationOrder) where
  abbrev sender : String
  sender = c.transfer_order.sender

  abbrev recipient : String
  recipient = c.transfer_order.recipient

  abbrev amount : ℤ
  amount = c.transfer_order.amount

  abbrev pub debited : Account → Account
  debited a = record a { balance = a.balance -ℤ amount; last_update = now }

  abbrev pub credited : Account → Account
  credited a = record a { balance = a.balance +ℤ amount; last_update = now }

  debit-ok : (a : Account) → can_debit a.balance amount ≡ true → debit now a amount ≡ ok (debited a)
  unfolding debit
  debit-ok a h = ground arith

  credit-ok :
      (a b : Account) → can_debit a.balance amount ≡ true → credit now b amount ≡ ok (credited b)
  unfolding credit
  credit-ok a b h = ground arith

  -- The three stores, in order.
  abbrev pub stored : Dict Account → Account → Account → Account → Dict Account
  stored d a b e =
      insert sender (mark_confirmed rt c e)
        (insert recipient (credited b) (insert sender (settle_sender rt now c (debited a)) d))

  apply_confirmation-eq :
      (w : World) (a b e : Account)
      → lookup sender w.node.accounts ≡ some a
      → can_debit a.balance amount ≡ true
      → lookup recipient (insert sender (settle_sender rt now c (debited a)) w.node.accounts)
        ≡ some b
      → lookup sender (
          insert recipient
            (credited b)
            (insert sender (settle_sender rt now c (debited a)) w.node.accounts))
        ≡ some e
      → apply_confirmation rt now c w
        ≡ (refresh_weight_state rt >> pure true)
            (record w { node = record w.node { accounts = stored w.node.accounts a b e } })
  unfolding apply_confirmation
  apply_confirmation-eq w a b e found covered fb fe =
      rw (found, debit-ok a covered, fb, credit-ok a b covered, fe)

  pub settle_sender-balance : (a : Account) → (settle_sender rt now c a).balance ≡ a.balance
  unfolding settle_sender set_sequence
  settle_sender-balance a = refl

  pub mark_confirmed-balance : (a : Account) → (mark_confirmed rt c a).balance ≡ a.balance
  unfolding mark_confirmed
  mark_confirmed-balance a = refl

  stored-total :
      (d : Dict Account) (a b e : Account)
      → lookup sender d ≡ some a
      → lookup recipient (insert sender (settle_sender rt now c (debited a)) d) ≡ some b
      → lookup sender
          (insert recipient (credited b) (insert sender (settle_sender rt now c (debited a)) d))
        ≡ some e
      → total_balance (stored d a b e) ≡ total_balance d
  stored-total d a b e fa fb fe =
      let a' = settle_sender rt now c (debited a) in
      let d1 = insert sender a' d in
      let d2 = insert recipient (credited b) d1 in
      grind (
        int_laws,
        total_balance-insert sender a' a d fa,
        total_balance-insert recipient (credited b) b d1 fb,
        total_balance-insert sender (mark_confirmed rt c e) e d2 fe,
        settle_sender-balance (debited a),
        mark_confirmed-balance e,
      )

  there :
      (d : Dict Account) (k j : String) (v : Account)
      → lookup j d ≢ none
      → (a : Account) × (lookup j (insert k v d) ≡ some a)
  there d k j v h = elim (Option-cases (lookup j (insert k v d))) [
    | inl missing ↦ absurd (ground (arith, lookup-insert k j v d))
    | inr found ↦ found
  ]

  -- With both accounts there and the debit covered, the confirmation is applied: the three stores are
  -- made, and a refresh follows.
  pub apply_confirmation_lem :
      (w : World) (a : Account)
      → lookup sender w.node.accounts ≡ some a
      → can_debit a.balance amount ≡ true
      → lookup recipient w.node.accounts ≢ none
      → (b e : Account) × (lookup recipient
            (insert sender (settle_sender rt now c (debited a)) w.node.accounts)
          ≡ some b)
        × (lookup sender (
              insert recipient
                (credited b)
                (insert sender (settle_sender rt now c (debited a)) w.node.accounts))
            ≡ some e)
        × (apply_confirmation rt now c w
            ≡ (refresh_weight_state rt >> pure true)
                (record w { node = record w.node { accounts = stored w.node.accounts a b e } }))
        × (total_balance (stored w.node.accounts a b e) ≡ total_balance w.node.accounts)
  apply_confirmation_lem w a found covered known =
      let d = w.node.accounts in
      let a' = settle_sender rt now c (debited a) in
      let (b, fb) = there d sender recipient a' known in
      let (e, fe) =
        there (insert sender a' d) recipient sender (credited b)
          (λ missing. absurd (ground (arith, lookup-insert sender sender a' d, eq_refl sender))) in
      (
        b,
        e,
        fb,
        fe,
        apply_confirmation-eq w a b e found covered fb fe,
        stored-total d a b e found fb fe,
      )
