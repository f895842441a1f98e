-- ===== src/Authority/Movement.antt =====
-- What an applied confirmation leaves in the accounts, address by address.
use meshpay.Base.{
  ◌≡◌, refl, ap, ◌∙◌, ◌≢◌, true, false, none, some, String, ◌==◌, eq_iff, eq_refl, if◌then◌else◌,
  Dict, lookup, insert, lookup-insert, ℤ, pos, ◌+ℤ◌, ◌-ℤ◌, int_laws, leb_ℤ, arith, Bool-cases, inl,
  inr,
}
use meshpay.Runtime.{Runtime}
use meshpay.Transaction.Status.{TransactionStatus}
use meshpay.Transaction.Confirmation.{ConfirmationOrder}
use meshpay.Account.{Account, set_sequence}
use meshpay.Authority.{settle_sender, mark_confirmed}
use meshpay.Authority.Apply.{
  debited, credited, stored, settle_sender-balance, mark_confirmed-balance,
}

-- The balance under an address, 0 where there is no account.
abbrev pub balance_in : Dict Account → String → ℤ
balance_in d j = elim (lookup j d) [ none ↦ pos 0 | some a ↦ a.balance ]

-- The sequence number of the last payment from an address, 0 where there is no account.
abbrev pub sequence_in : Dict Account → String → ℤ
sequence_in d j = elim (lookup j d) [ none ↦ pos 0 | some a ↦ a.sequence_number ]

-- The amount, where the two addresses are the same, and else 0.
abbrev pub share_of : String → String → ℤ → ℤ
share_of k j amount = if k == j then amount else pos 0

module _ (rt : Runtime) (now : ℤ) (c : ConfirmationOrder) (d : Dict Account) (a b e : Account) where
  abbrev after_debit : Dict Account
  after_debit = insert c.transfer_order.sender (settle_sender rt now c (debited rt now c a)) d

  abbrev after_credit : Dict Account
  after_credit = insert c.transfer_order.recipient (credited rt now c b) after_debit

  module _ (fa : lookup c.transfer_order.sender d ≡ some a)
      (fb : lookup c.transfer_order.recipient after_debit ≡ some b)
      (fe : lookup c.transfer_order.sender after_credit ≡ some e) where
    abbrev sender : String
    sender = c.transfer_order.sender

    abbrev recipient : String
    recipient = c.transfer_order.recipient

    lookup-stored :
        (j : String)
        → lookup j (stored rt now c d a b e) ≡ (
            if sender == j
            then some (mark_confirmed rt c e)
            else if recipient == j
            then some (credited rt now c b)
            else lookup j d)
    lookup-stored j = ground (
      arith,
      lookup-insert sender j (mark_confirmed rt c e) after_credit,
      lookup-insert recipient j (credited rt now c b) after_debit,
      lookup-insert sender j (settle_sender rt now c (debited rt now c a)) d,
    )

    -- The balance that the sender's account has when it is stored last.
    last_balance :
        e.balance
        ≡ a.balance -ℤ c.transfer_order.amount +ℤ share_of recipient sender c.transfer_order.amount
    last_balance = grind (
      int_laws,
      fb,
      fe,
      lookup-insert recipient sender (credited rt now c b) after_debit,
      lookup-insert sender sender (settle_sender rt now c (debited rt now c a)) d,
      lookup-insert sender recipient (settle_sender rt now c (debited rt now c a)) d,
      eq_refl sender,
      eq_iff recipient sender,
      settle_sender-balance rt now c (debited rt now c a),
    )

    pub balance-stored :
        (j : String)
        → balance_in (stored rt now c d a b e) j
          ≡ balance_in d j
            -ℤ share_of sender j c.transfer_order.amount
            +ℤ share_of recipient j c.transfer_order.amount
    balance-stored j = grind (
      int_laws,
      fa,
      fb,
      lookup-stored j,
      last_balance,
      mark_confirmed-balance rt now c e,
      lookup-insert sender recipient (settle_sender rt now c (debited rt now c a)) d,
      eq_iff sender j,
      eq_iff recipient j,
      eq_iff sender recipient,
      eq_iff recipient sender,
    )

    -- The sender's account when it is stored last, up to its balance.
    last_settled : mark_confirmed rt c e ≡ record (settle_sender rt now c a) {
      balance = (mark_confirmed rt c e).balance;
      confirmed_transfers = (mark_confirmed rt c e).confirmed_transfers;
    }
    unfolding settle_sender mark_confirmed set_sequence
    last_settled = grind (
      arith,
      fb,
      fe,
      lookup-insert recipient sender (credited rt now c b) after_debit,
      lookup-insert sender sender (settle_sender rt now c (debited rt now c a)) d,
      lookup-insert sender recipient (settle_sender rt now c (debited rt now c a)) d,
      eq_refl sender,
      eq_iff recipient sender,
    )

    -- What the last store leaves at the sender's address.
    pub sender-stored :
        leb_ℤ c.transfer_order.sequence_number a.sequence_number ≡ false
        → (a' : Account) × (lookup sender (stored rt now c d a b e) ≡ some a')
          × (a'.sequence_number ≡ c.transfer_order.sequence_number)
          × (a'.pending_confirmation ≡ none)
          × (lookup (rt.uuid_str c.transfer_order.order_id) a'.confirmed_transfers
              ≡ some (record c { status = TransactionStatus.confirmed }))
    unfolding settle_sender mark_confirmed set_sequence
    sender-stored later = (
      mark_confirmed rt c e,
      ground (arith, lookup-stored sender, eq_refl sender),
      ap (λ x. x.sequence_number) last_settled ∙ ground (arith, later),
      ap (λ x. x.pending_confirmation) last_settled,
      ground (
        arith,
        lookup-insert (rt.uuid_str c.transfer_order.order_id)
            (rt.uuid_str c.transfer_order.order_id)
            (record c { status = TransactionStatus.confirmed }) e.confirmed_transfers,
        eq_refl (rt.uuid_str c.transfer_order.order_id),
      ),
    )

    pub sequence-stored :
        leb_ℤ c.transfer_order.sequence_number a.sequence_number ≡ false
        → (j : String)
        → sequence_in (stored rt now c d a b e) j
          ≡ (if sender == j then c.transfer_order.sequence_number else sequence_in d j)
    unfolding settle_sender mark_confirmed set_sequence
    sequence-stored later j = grind (
      arith,
      later,
      fb,
      lookup-stored j,
      ap (λ x. x.sequence_number) last_settled,
      lookup-insert sender recipient (settle_sender rt now c (debited rt now c a)) d,
      eq_iff sender j,
      eq_iff recipient j,
      eq_iff sender recipient,
    )

    same_account :
        (j : String) (x : Account)
        → j ≢ sender
        → lookup j d ≡ some x
        → (recipient == j) ≡ true
        → b ≡ x
    same_account j x ne h hit = grind (
      arith,
      fb,
      h,
      lookup-insert sender recipient (settle_sender rt now c (debited rt now c a)) d,
      eq_iff recipient j,
      eq_iff sender recipient,
    )

    -- Every other account keeps all but its balance and its time.
    pub other-stored :
        (j : String) (x : Account)
        → j ≢ sender
        → lookup j d ≡ some x
        → (y : Account) × (lookup j (stored rt now c d a b e) ≡ some y)
          × (y ≡ record x { balance = y.balance; last_update = y.last_update })
    other-stored j x ne h = elim (Bool-cases (recipient == j)) [
      | inl hit ↦ (
        credited rt now c x,
        ground (arith, lookup-stored j, eq_iff sender j)
            ∙ ap (λ z. some (credited rt now c z)) (same_account j x ne h hit),
        refl,
      )
      | inr miss ↦ (x, ground (arith, lookup-stored j, eq_iff sender j), refl)
    ]
