-- ===== src/Authority/Transfer.antt =====
-- What `handle_transfer` answers, and what it leaves behind.
use mathlib.Core.Path.{subst, sym}
use meshpay.Base.{
  ℕ, ◌≡◌, refl, ◌∙◌, true, none, some, String, ◌==◌, eq_refl, if◌then◌else◌, lookup, insert,
  lookup-insert, ℤ, pos, arith, contains, Bool-cases, inl, inr,
}
use meshpay.Value.{ok}
use meshpay.Runtime.{Runtime, verify_signature-sign_payload}
use meshpay.Transaction.Transfer.{TransferOrder}
use meshpay.Transaction.Signed.{SignedTransferOrder}
use meshpay.Quorum.{WeightSnapshot, verify_authority_vote, weight_for, authority_vote_signing_dict}
use meshpay.Registry.{RegistryState}
use meshpay.Registry.Invariant.{IsValid, IsSound}
use meshpay.Registry.Initialize.{initialize-IsSound}
use meshpay.Account.{Account}
use meshpay.Authority.{
  same_order, account_allows, validate_transfer, sign_order, sign_new, handle_transfer,
}
use meshpay.Authority.Monad.{World}
use meshpay.Authority.Refresh.{IsReady, refresh_weight_state_lem}

module _ (rt : Runtime) (now : ℤ) (order : TransferOrder) (w : World) where
  -- The vote of a committee member verifies under the snapshot that it was signed with.
  pub sign_order-verifies :
      (s : WeightSnapshot)
      → contains w.node.name s.committee ≡ true
      → verify_authority_vote rt order (sign_order rt now w.node.name order s).authority_vote s
        ≡ true
  unfolding verify_authority_vote sign_order
  sign_order-verifies s member = ground (
    arith,
    member,
    eq_refl s.committee_digest,
    verify_signature-sign_payload rt w.node.name (
        authority_vote_signing_dict rt order w.node.name (pos s.epoch)
          (pos (weight_for s w.node.name)) (pos s.total_weight_units) s.committee_digest),
  )

  sign_order-order :
      (s : WeightSnapshot) → (sign_order rt now w.node.name order s).transfer_order ≡ order
  unfolding sign_order
  sign_order-order s = refl

  -- The world after signing under the snapshot.
  abbrev signed_world : Account → WeightSnapshot → ℕ → ℕ → RegistryState → World
  signed_world a s tx_count weight st = record w {
    node = record w.node {
      tx_count = tx_count;
      current_weight = weight;
      accounts =
          insert order.sender
            (record a {
              pending_confirmation = some (sign_order rt now w.node.name order s);
              last_update = now;
            })
            w.node.accounts;
    };
    file = some st;
  }

  sign_new_lem :
      (a : Account)
      → IsReady rt w
      → (s : WeightSnapshot) × (tx_count weight : ℕ) × (st : RegistryState) × (sign_new rt now order
            a w
          ≡ (
            ok (some (sign_order rt now w.node.name order s)),
            signed_world a s tx_count weight st,
          ))
        × IsValid rt w.node.registry st
        × IsSound rt w.node.registry st.current_epoch s
  unfolding sign_new
  sign_new_lem a r =
      let (tx_count, weight, st, fresh, valid) = refresh_weight_state_lem rt w r in
      let (s, st', found, valid', sound, again) =
        initialize-IsSound rt w.node.registry (some st) r.registry valid in
      (s, tx_count, weight, st', rw (fresh, found), valid', sound)

  validate-same :
      (a : Account) (existing : SignedTransferOrder)
      → lookup order.sender w.node.accounts ≡ some a
      → a.pending_confirmation ≡ some existing
      → validate_transfer rt order w.node ≡ true
      → same_order rt existing.transfer_order order ≡ true
  unfolding validate_transfer account_allows
  validate-same a existing found pending valid = ground arith

  -- While something is pending for the sender, nothing new is signed: a valid order gets the pending
  -- signature again, any other order gets nothing, and nothing changes.
  pub handle_transfer-pending :
      (a : Account) (existing : SignedTransferOrder)
      → lookup order.sender w.node.accounts ≡ some a
      → a.pending_confirmation ≡ some existing
      → handle_transfer rt now order w
        ≡ (ok (if validate_transfer rt order w.node then some existing else none), w)
  unfolding handle_transfer
  handle_transfer-pending a existing found pending =
      elim (Bool-cases (validate_transfer rt order w.node)) [
        | inl valid ↦ rw (valid, found, pending, validate-same a existing found pending valid)
        | inr invalid ↦ rw invalid
      ]

  pub starts-signing :
      (a : Account)
      → validate_transfer rt order w.node ≡ true
      → lookup order.sender w.node.accounts ≡ some a
      → a.pending_confirmation ≡ none
      → handle_transfer rt now order w ≡ sign_new rt now order a w
  unfolding handle_transfer
  starts-signing a valid found nothing = rw (valid, found) (simp nothing)

  -- The very order that is signed, and its vote.
  pub handle_transfer-signed :
      (a : Account)
      → IsReady rt w
      → validate_transfer rt order w.node ≡ true
      → lookup order.sender w.node.accounts ≡ some a
      → a.pending_confirmation ≡ none
      → contains w.node.name w.node.registry.committee ≡ true
      → (s : WeightSnapshot) × (w' : World) × (handle_transfer rt now order w
          ≡ (ok (some (sign_order rt now w.node.name order s)), w'))
        × (verify_authority_vote rt order (sign_order rt now w.node.name order s).authority_vote s
            ≡ true)
        × IsSound rt w.node.registry s.epoch s
  handle_transfer-signed a r valid found nothing member =
      let (s, tx_count, weight, st, signs, good, sound) = sign_new_lem a r in
      (
        s,
        signed_world a s tx_count weight st,
        starts-signing a valid found nothing ∙ signs,
        sign_order-verifies s (rw sound.of_committee member),
        subst (λ n. IsSound rt w.node.registry n s) (sym sound.of_epoch) sound,
      )

  -- Where the registry is in order, the authority is a committee member and nothing is pending for the
  -- sender, a valid order is signed: the answer carries the order and a vote that verifies under a
  -- sound snapshot, it is now what is pending for the sender, whose balance and sequence number stay
  -- as they were, like every other account, and the registry is still in order.
  pub handle_transfer-signs :
      (a : Account)
      → IsReady rt w
      → validate_transfer rt order w.node ≡ true
      → lookup order.sender w.node.accounts ≡ some a
      → a.pending_confirmation ≡ none
      → contains w.node.name w.node.registry.committee ≡ true
      → (s : WeightSnapshot) × (signed : SignedTransferOrder) × (w' : World) × (handle_transfer rt
            now order w
          ≡ (ok (some signed), w'))
        × (signed.transfer_order ≡ order)
        × (verify_authority_vote rt order signed.authority_vote s ≡ true)
        × IsSound rt w.node.registry s.epoch s
        × IsReady rt w'
        × ((j : String)
            → lookup j w'.node.accounts ≡ (
                if order.sender == j
                then some (record a { pending_confirmation = some signed; last_update = now })
                else lookup j w.node.accounts))
  handle_transfer-signs a r valid found nothing member =
      let (s, tx_count, weight, st, signs, good, sound) = sign_new_lem a r in
      let signed = sign_order rt now w.node.name order s in
      (
        s,
        signed,
        signed_world a s tx_count weight st,
        starts-signing a valid found nothing ∙ signs,
        sign_order-order s,
        sign_order-verifies s (rw sound.of_committee member),
        subst (λ n. IsSound rt w.node.registry n s) (sym sound.of_epoch) sound,
        record { registry = r.registry; file = good },
        λ j.
            lookup-insert order.sender j
              (record a { pending_confirmation = some signed; last_update = now }) w.node.accounts,
      )
