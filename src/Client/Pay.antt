-- ===== src/Client/Pay.antt =====
-- The orders that a client issues.
use meshpay.Base.{
  ap, sym, ℕ, ◌≡◌, refl, ◌∙◌, true, false, Option, some, String, lookup, has_key, lookup-insert,
  eq_refl, ℤ, pos, ◌+ℤ◌, ltb_ℤ, leb_ℤ, if◌then◌else◌, Bool, arith, not, ◌&&◌, ◌⊎◌, Option-cases,
  Bool-cases, inl, inr,
}
use meshpay.Value.{Error, ok, err, value_error, runtime_error}
use meshpay.Runtime.{Runtime, verify_signature, verify_signature-sign_payload}
use meshpay.Transaction.Transfer.{TransferOrder, signing_dict, to_dict}
use meshpay.Wallet.{Wallet}
use meshpay.Client.{can_pay_from, sender_or, unsigned_order, signed_by_sender, issue, pay}
use meshpay.Client.Monad.{Station}

module _ (rt : Runtime) where
  -- The signature that a client puts on an order verifies.
  signed_by_sender-verifies :
      (order : TransferOrder)
      → verify_signature rt
          (signed_by_sender rt order).sender
          (signing_dict rt (signed_by_sender rt order))
          (signed_by_sender rt order).signature
        ≡ true
  unfolding signed_by_sender signing_dict to_dict
  signed_by_sender-verifies order =
      verify_signature-sign_payload rt order.sender (signing_dict rt order)

  module _ (now : ℤ) (id : ℕ) (recipient : String) (amount : ℤ) (account : Option String)
      (z : Station) where
    abbrev sender : String
    sender = sender_or z.client.name account

    abbrev order_for : Wallet → TransferOrder
    order_for wallet =
        signed_by_sender rt
          (unsigned_order rt now id sender recipient amount (wallet.sequence_number +ℤ pos 1))

    -- Whether `pay` has all that it asks for.
    abbrev pub may_pay : Bool
    may_pay = can_pay_from z.client sender amount && not (leb_ℤ amount (pos 0))

    -- The error, if it has not.
    abbrev pub refusal : Error
    refusal =
        if has_key sender z.client.accounts
          && not (leb_ℤ amount (pos 0))
          && has_key sender z.client.pending_by_account
        then runtime_error
        else value_error

    refused :
        (e : Error)
        → pay rt now id recipient amount account z ≡ (err e, z)
        → refusal ≡ e
        → pay rt now id recipient amount account z ≡ (err refusal, z)
    refused e raised same = raised ∙ ap (λ x. (err x, z)) (sym same)

    -- `pay` and `can_pay_from` agree: where the amount is positive and `can_pay_from` says yes, `pay`
    -- makes an order of the amount to the recipient. In every other case it raises and changes
    -- nothing: a `RuntimeError` where the account is hosted, the amount is positive and an order of the
    -- account is pending, and else a `ValueError`.
    pub pay-can_pay_from :
        ((may_pay ≡ true)
          × ((order : TransferOrder) × (z' : Station) × (pay rt now id recipient amount account z
                ≡ (ok order, z'))
              × (order.amount ≡ amount)
              × (order.recipient ≡ recipient)))
        ⊎ ((may_pay ≡ false) × (pay rt now id recipient amount account z ≡ (err refusal, z)))
    unfolding pay can_pay_from issue unsigned_order signed_by_sender
    pay-can_pay_from = elim (Option-cases (lookup sender z.client.accounts)) [
      | inl missing ↦ inr (
        ground (arith, missing),
        refused value_error (rw (pay, missing) refl) (ground (arith, missing)),
      )
      | inr (wallet, known) ↦ elim (Bool-cases (leb_ℤ amount (pos 0))) [
        | inl low ↦ inr (
          ground (arith, low),
          refused value_error (rw (pay, known, low) refl) (ground (arith, low)),
        )
        | inr high ↦ elim (Bool-cases (has_key sender z.client.pending_by_account)) [
          | inl waits ↦ inr (
            ground (arith, known, waits),
            refused runtime_error (rw (pay, known, high, waits) refl)
                (ground (arith, known, high, waits)),
          )
          | inr free ↦ elim (Bool-cases (ltb_ℤ wallet.balance amount)) [
            | inl short ↦ inr (
              ground (arith, known, short, free),
              refused value_error (rw (pay, known, high, free, short) refl) (ground (arith, free)),
            )
            | inr covered ↦ inl (
              ground (arith, known, high, free, covered),
              (
                order_for wallet,
                (issue rt now id sender recipient amount wallet z).1,
                rw (pay, known, high, free, covered),
                refl,
                refl,
              ),
            )
          ]
        ]
      ]
    ]

    -- Where nothing is pending for an account that the client hosts, the amount is positive and the
    -- balance covers it, `pay` makes the account's order with the next sequence number and a signature
    -- that verifies; it is now what is pending for the account, under its id.
    pub pay-issues :
        (wallet : Wallet)
        → lookup sender z.client.accounts ≡ some wallet
        → has_key sender z.client.pending_by_account ≡ false
        → leb_ℤ amount (pos 0) ≡ false
        → ltb_ℤ wallet.balance amount ≡ false
        → (order : TransferOrder) × (z' : Station) × (pay rt now id recipient amount account z
            ≡ (ok order, z'))
          × (order.sender ≡ sender)
          × (order.amount ≡ amount)
          × (order.sequence_number ≡ wallet.sequence_number +ℤ pos 1)
          × (verify_signature rt order.sender (signing_dict rt order) order.signature ≡ true)
          × (lookup sender z'.client.pending_by_account ≡ some (rt.uuid_str id))
          × (lookup (rt.uuid_str id) z'.client.pending_transfers ≡ some order)
          × (lookup sender z'.client.accounts
              ≡ some (record wallet { sequence_number = wallet.sequence_number +ℤ pos 1 }))
    unfolding pay issue unsigned_order signed_by_sender
    pay-issues wallet known free positive covered = (
      order_for wallet,
      (issue rt now id sender recipient amount wallet z).1,
      rw (pay, known, positive, free, covered),
      refl,
      refl,
      refl,
      signed_by_sender-verifies
          (unsigned_order rt now id sender recipient amount (wallet.sequence_number +ℤ pos 1)),
      lookup-insert sender sender (rt.uuid_str id) z.client.pending_by_account
          ∙ rw (eq_refl sender),
      lookup-insert (rt.uuid_str id) (rt.uuid_str id) (order_for wallet) z.client.pending_transfers
          ∙ rw (eq_refl (rt.uuid_str id)),
      lookup-insert sender sender
            (record wallet { sequence_number = wallet.sequence_number +ℤ pos 1 }) z.client.accounts
          ∙ rw (eq_refl sender),
    )
