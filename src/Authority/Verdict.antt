-- ===== src/Authority/Verdict.antt =====
-- How `_validate_confirmation` can end.
use meshpay.Base.{
  ◌≡◌, refl, ap, ◌∙◌, Bool, true, false, Option, none, some, ◌⊎◌, inl, inr, lookup, leb_ℤ,
  Option-cases, Bool-cases,
}
use meshpay.Value.{Result, ok, err, Error}
use meshpay.Runtime.{Runtime}
use meshpay.Transaction.Confirmation.{ConfirmationOrder}
use meshpay.Quorum.{WeightSnapshot}
use meshpay.Registry.{RegistryFile, snapshot_for_epoch}
use meshpay.Wallet.{can_debit}
use meshpay.Account.{Account}
use meshpay.Authority.{is_certified, validate_confirmation}
use meshpay.Authority.Monad.{World}

-- The tests that a confirmation has passed.
pub record Passes (rt : Runtime) (c : ConfirmationOrder) (w : World) (file' : RegistryFile)
    : Type 0 where
  pub account : Account
  pub known : lookup c.transfer_order.sender w.node.accounts ≡ some account
  pub covered : can_debit account.balance c.transfer_order.amount ≡ true
  pub later : leb_ℤ c.transfer_order.sequence_number account.sequence_number ≡ false
  pub snapshot : Option WeightSnapshot
  pub looked_up : snapshot_for_epoch rt w.node.registry c.quorum_epoch w.file ≡ ok (snapshot, file')
  pub certified : is_certified rt c snapshot ≡ true

-- With at most the registry file changed, the answer is no, an exception, or yes with all tests
-- passed.
abbrev pub Verdict : Runtime → ConfirmationOrder → World → Result Bool × World → Type 0
Verdict rt c w r =
    (file' : RegistryFile) × ((r ≡ (ok false, record w { file = file' }))
      ⊎ ((e : Error) × (r ≡ (err e, record w { file = file' })))
      ⊎ ((r ≡ (ok true, record w { file = file' })) × Passes rt c w file'))

Result-cases {ℓ} :
    {T : Type ℓ} (r : Result T) → ((e : Error) × (r ≡ err e)) ⊎ ((t : T) × (r ≡ ok t))
Result-cases (err e) = inl (e, refl)
Result-cases (ok t) = inr (t, refl)

module _ (rt : Runtime) (c : ConfirmationOrder) (w : World) where
  refused : {r : Result Bool × World} → r ≡ (ok false, w) → Verdict rt c w r
  refused h = (w.file, inl h)

  module _ (a : Account) (known : lookup c.transfer_order.sender w.node.accounts ≡ some a)
      (covered : can_debit a.balance c.transfer_order.amount ≡ true)
      (later : leb_ℤ c.transfer_order.sequence_number a.sequence_number ≡ false) where
    snapshot_answers :
        (s : Option WeightSnapshot) (file' : RegistryFile)
        → snapshot_for_epoch rt w.node.registry c.quorum_epoch w.file ≡ ok (s, file')
        → validate_confirmation rt c w ≡ (ok (is_certified rt c s), record w { file = file' })
    unfolding validate_confirmation
    snapshot_answers s file' found = rw (validate_confirmation, known, covered, later, found)

    snapshot_raises :
        (e : Error)
        → snapshot_for_epoch rt w.node.registry c.quorum_epoch w.file ≡ err e
        → validate_confirmation rt c w ≡ (err e, w)
    unfolding validate_confirmation
    snapshot_raises e failed = rw (validate_confirmation, known, covered, later, failed)

    -- Once the account has let the order through, the snapshot decides.
    by_snapshot : Verdict rt c w (validate_confirmation rt c w)
    by_snapshot =
        elim (Result-cases (snapshot_for_epoch rt w.node.registry c.quorum_epoch w.file)) [
          | inr ((s, file'), found) ↦
              let answer = snapshot_answers s file' found in
              elim (Bool-cases (is_certified rt c s)) [
                | inl yes_it_is ↦ (
                  file',
                  inr (
                      inr (
                        answer ∙ ap (λ b. (ok b, record w { file = file' })) yes_it_is,
                        record {
                          account = a;
                          known = known;
                          covered = covered;
                          later = later;
                          snapshot = s;
                          looked_up = found;
                          certified = yes_it_is;
                        },
                      )),
                )
                | inr no_it_is_not ↦
                    (file', inl (answer ∙ ap (λ b. (ok b, record w { file = file' })) no_it_is_not))
              ]
          | inl (e, failed) ↦ (w.file, inr (inl (e, snapshot_raises e failed)))
        ]

  unknown_sender :
      lookup c.transfer_order.sender w.node.accounts ≡ none
      → validate_confirmation rt c w ≡ (ok false, w)
  unfolding validate_confirmation
  unknown_sender h = rw (validate_confirmation, h)

  uncovered :
      (a : Account)
      → lookup c.transfer_order.sender w.node.accounts ≡ some a
      → can_debit a.balance c.transfer_order.amount ≡ false
      → validate_confirmation rt c w ≡ (ok false, w)
  unfolding validate_confirmation
  uncovered a known h = rw (validate_confirmation, known, h)

  stale :
      (a : Account)
      → lookup c.transfer_order.sender w.node.accounts ≡ some a
      → can_debit a.balance c.transfer_order.amount ≡ true
      → leb_ℤ c.transfer_order.sequence_number a.sequence_number ≡ true
      → validate_confirmation rt c w ≡ (ok false, w)
  unfolding validate_confirmation
  stale a known covered h = rw (validate_confirmation, known, covered, h)

  pub validate_confirmation-Verdict : Verdict rt c w (validate_confirmation rt c w)
  validate_confirmation-Verdict =
      elim (Option-cases (lookup c.transfer_order.sender w.node.accounts)) [
        | inl unknown ↦ refused (unknown_sender unknown)
        | inr (a, known) ↦ elim (Bool-cases (can_debit a.balance c.transfer_order.amount)) [
          | inr short ↦ refused (uncovered a known short)
          | inl covered ↦
              elim (Bool-cases (leb_ℤ c.transfer_order.sequence_number a.sequence_number)) [
                | inl old ↦ refused (stale a known covered old)
                | inr later ↦ by_snapshot a known covered later
              ]
        ]
      ]
