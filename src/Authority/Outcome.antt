-- ===== src/Authority/Outcome.antt =====
-- How `handle_confirmation` can end.
use meshpay.Base.{◌≡◌, ◌∙◌, Bool, true, false, some, ◌⊎◌, inl, inr, lookup, has_key, ℤ, Bool-cases}
use meshpay.Value.{Result, ok, err, Error}
use meshpay.Runtime.{Runtime}
use meshpay.Transaction.Confirmation.{ConfirmationOrder}
use meshpay.Registry.{RegistryFile}
use meshpay.Account.{Account}
use meshpay.Authority.{validate_confirmation, apply_confirmation, handle_confirmation}
use meshpay.Authority.Monad.{World}
use meshpay.Authority.Verdict.{Passes, validate_confirmation-Verdict}
use meshpay.Authority.Open.{opened, get_or_create_account-opened, lookup-opened}

module _ (rt : Runtime) (now : ℤ) (c : ConfirmationOrder) where
  -- The world in which the confirmation is applied.
  abbrev pub prepared : World → RegistryFile → World
  prepared w file' = record w {
    node = record w.node { accounts = opened now c.transfer_order.recipient w.node.accounts };
    file = file';
  }

  abbrev pub seen : Account → Bool
  seen a = has_key (rt.uuid_str c.transfer_order.order_id) a.confirmed_transfers

  -- No or an exception, with at most the file changed; no, for an order that the sender's account has
  -- confirmed; or the confirmation is applied.
  abbrev pub Outcome : World → Result Bool × World → Type 0
  Outcome w r =
      (file' : RegistryFile) × ((r ≡ (ok false, record w { file = file' }))
        ⊎ ((e : Error) × (r ≡ (err e, record w { file = file' })))
        ⊎ ((r ≡ (ok false, prepared w file')) × Passes rt c w file')
        ⊎ ((p : Passes rt c w file') × (seen p.account ≡ false)
            × (r ≡ apply_confirmation rt now c (prepared w file'))))

  module _ (w : World) (file' : RegistryFile) where
    abbrev checked : World
    checked = record w { file = file' }

    says_no :
        validate_confirmation rt c w ≡ (ok false, checked)
        → handle_confirmation rt now c w ≡ (ok false, checked)
    unfolding handle_confirmation
    says_no h = rw (handle_confirmation, h)

    raises :
        (e : Error)
        → validate_confirmation rt c w ≡ (err e, checked)
        → handle_confirmation rt now c w ≡ (err e, checked)
    unfolding handle_confirmation
    raises e h = rw (handle_confirmation, h)

    module _ (p : Passes rt c w file')
        (yes : validate_confirmation rt c w ≡ (ok true, checked)) where
      still_known :
          lookup c.transfer_order.sender (opened now c.transfer_order.recipient w.node.accounts)
          ≡ some p.account
      still_known =
          lookup-opened now c.transfer_order.recipient w.node.accounts c.transfer_order.sender
          ∙ rw p.known

      pub known_already :
          seen p.account ≡ true → handle_confirmation rt now c w ≡ (ok false, prepared w file')
      unfolding handle_confirmation
      known_already h = rw (
        handle_confirmation,
        yes,
        get_or_create_account-opened now c.transfer_order.recipient checked,
        still_known,
        h,
      )

      pub applies :
          seen p.account ≡ false
          → handle_confirmation rt now c w ≡ apply_confirmation rt now c (prepared w file')
      unfolding handle_confirmation
      applies h = rw (
        handle_confirmation,
        yes,
        get_or_create_account-opened now c.transfer_order.recipient checked,
        still_known,
        h,
      )

      by_seen : Outcome w (handle_confirmation rt now c w)
      by_seen = elim (Bool-cases (seen p.account)) [
        | inl h ↦ (file', inr (inr (inl (known_already h, p))))
        | inr h ↦ (file', inr (inr (inr (p, h, applies h))))
      ]

  pub handle_confirmation-Outcome : (w : World) → Outcome w (handle_confirmation rt now c w)
  handle_confirmation-Outcome w =
      let (file', verdict) = validate_confirmation-Verdict rt c w in
      elim verdict [
        | inl h ↦ (file', inl (says_no w file' h))
        | inr (inl (e, h)) ↦ (file', inr (inl (e, raises w file' e h)))
        | inr (inr (h, p)) ↦ by_seen w file' p h
      ]
