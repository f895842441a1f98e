-- ===== src/Examples/Authorities.antt =====
-- Authority `a` with Ann's payment of 30 to Bob.
use meshpay.Base.{
  ◌*◌, ◌<◌, ◌≡◌, refl, true, false, none, some, String, ◌==◌, if◌then◌else◌, ℤ, pos, ◌+ℤ◌, ◌-ℤ◌,
  scale, leb_ℤ, List, [], ◌∷◌, All, IsNodup, lookup, insert, arith,
}
use meshpay.Value.{ok}
use meshpay.Runtime.{verify_signature, sign_payload, canonical_json}
use meshpay.Transaction.Status.{TransactionStatus}
use meshpay.Transaction.Signed.{SignedTransferOrder}
use meshpay.Transaction.Confirmation.{ConfirmationOrder}
use meshpay.Adapter.{PaymentObject, transfer_order, confirmation_order}
use meshpay.Quorum.{WeightSnapshot, verify_authority_vote, has_weighted_quorum}
use meshpay.Quorum.Signers.{HasVoted, weight_sum}
use meshpay.Registry.{RegistryFile, snapshot_for_epoch, authority_stats}
use meshpay.Registry.Invariant.{IsSound}
use meshpay.Account.{Account, debit, credit}
use meshpay.Authority.{
  handle_confirmation, balance_of, validate_confirmation, get_or_create_account, apply_confirmation,
  refresh_weight_state, validate_transfer, handle_transfer, sign_order, account_allows,
}
use meshpay.Authority.Monad.{World}
use meshpay.Authority.Balances.{total_balance}
use meshpay.Authority.Movement.{share_of}
use meshpay.Authority.Refresh.{IsReady}
use meshpay.Authority.Solvent.{IsSolvent}
use meshpay.Authority.Confirm.{handle_confirmation-moves, handle_confirmation-settles}
use meshpay.Authority.Ordering.{run-no_double_spend}
use meshpay.Authority.Certified.{handle_confirmation-certified}
use meshpay.Authority.Transfer.{handle_transfer-signs, handle_transfer-pending}
use meshpay.Authority.Ledger.{Payment, Picks, AreAllowed, ledger_of, transfer_all, run-refines}
use meshpay.Authority.Trace.{run, run-conserves}
use meshpay.Examples.{
  python, node_a, account_of, to_bob, to_eve, three_votes, other_votes, confirmation_of, quarters,
}
use meshpay.Examples.Ready.{node_a-IsReady}

abbrev bob_confirmed : ConfirmationOrder
bob_confirmed = confirmation_of to_bob three_votes

-- Another order with the same sequence number.
abbrev eve_confirmed : ConfirmationOrder
eve_confirmed = confirmation_of to_eve other_votes

abbrev paid : World
paid = (handle_confirmation python (pos 9) bob_confirmed node_a).1

paid_accepts : handle_confirmation python (pos 9) bob_confirmed node_a ≡ (ok true, paid)
unfolding handle_confirmation validate_confirmation snapshot_for_epoch verify_authority_vote
    verify_signature sign_payload canonical_json has_weighted_quorum scale ◌+ℤ◌
    get_or_create_account apply_confirmation debit credit refresh_weight_state authority_stats
paid_accepts = refl

-- Bob has his 5 and the 30.
paid_bob : balance_of paid.node "bob" ≡ pos 35
unfolding handle_confirmation validate_confirmation snapshot_for_epoch verify_authority_vote
    verify_signature sign_payload canonical_json has_weighted_quorum scale ◌+ℤ◌
    get_or_create_account apply_confirmation debit credit refresh_weight_state authority_stats
    balance_of
paid_bob = refl

handle_confirmation-moves_example :
    balance_of paid.node "bob"
    ≡ balance_of node_a.node "bob" -ℤ share_of "ann" "bob" (pos 30) +ℤ share_of "bob" "bob" (pos 30)
handle_confirmation-moves_example =
    handle_confirmation-moves python (pos 9) bob_confirmed node_a paid paid_accepts "bob"

handle_confirmation-settles_example :
    (a a' : Account) × (lookup "ann" node_a.node.accounts ≡ some a)
    × (lookup "ann" paid.node.accounts ≡ some a')
    × (leb_ℤ (pos 1) a.sequence_number ≡ false)
    × (a'.sequence_number ≡ pos 1)
    × (a'.pending_confirmation ≡ none)
    × (lookup (python.uuid_str 3) a'.confirmed_transfers
        ≡ some (record bob_confirmed { status = TransactionStatus.confirmed }))
handle_confirmation-settles_example =
    handle_confirmation-settles python (pos 9) bob_confirmed node_a paid paid_accepts

handle_confirmation-certified_example :
    (s : WeightSnapshot) × (file' : RegistryFile) × (names : List String) × (snapshot_for_epoch
        python node_a.node.registry
        (pos 0)
        node_a.file
      ≡ ok (some s, file'))
    × IsNodup names
    × All (HasVoted python to_bob s three_votes) names
    × (s.total_weight_units * 2 < 3 * weight_sum s names)
handle_confirmation-certified_example =
    handle_confirmation-certified python (pos 9) bob_confirmed node_a paid paid_accepts

abbrev traffic : List (ℤ × PaymentObject)
traffic =
    (pos 8, transfer_order to_bob)
    ∷ (pos 9, confirmation_order bob_confirmed)
    ∷ (pos 10, confirmation_order eve_confirmed)
    ∷ []

run-no_double_spend_example :
    handle_confirmation python (pos 20) eve_confirmed (run python traffic paid)
    ≡ (ok false, run python traffic paid)
run-no_double_spend_example =
    run-no_double_spend python (pos 9) (pos 20) bob_confirmed eve_confirmed traffic node_a paid
      paid_accepts refl refl

node_a-IsSolvent : IsSolvent node_a.node.accounts
node_a-IsSolvent j = ground arith

run-conserves_example :
    (total_balance (run python traffic node_a).node.accounts ≡ total_balance node_a.node.accounts)
    × IsSolvent (run python traffic node_a).node.accounts
run-conserves_example = run-conserves python traffic node_a node_a-IsSolvent

run-refines_example :
    (ps : List Payment) × Picks traffic ps
    × AreAllowed ps (ledger_of node_a.node.accounts)
    × (ledger_of (run python traffic node_a).node.accounts
        ≡ transfer_all ps (ledger_of node_a.node.accounts))
run-refines_example = run-refines python traffic node_a

to_bob_valid : validate_transfer python to_bob node_a.node ≡ true
unfolding validate_transfer verify_signature sign_payload canonical_json account_allows
to_bob_valid = refl

handle_transfer-signs_example :
    (s : WeightSnapshot) × (signed : SignedTransferOrder) × (w' : World) × (handle_transfer python
        (pos 8)
        to_bob
        node_a
      ≡ (ok (some signed), w'))
    × (signed.transfer_order ≡ to_bob)
    × (verify_authority_vote python to_bob signed.authority_vote s ≡ true)
    × IsSound python node_a.node.registry s.epoch s
    × IsReady python w'
    × ((j : String)
        → lookup j w'.node.accounts ≡ (
            if "ann" == j
            then some (record (account_of "ann" (pos 100)) {
              pending_confirmation = some signed;
              last_update = pos 8;
            })
            else lookup j node_a.node.accounts))
handle_transfer-signs_example =
    handle_transfer-signs python (pos 8) to_bob node_a (account_of "ann" (pos 100)) node_a-IsReady
      to_bob_valid refl refl refl

abbrev signed_to_bob : SignedTransferOrder
signed_to_bob = sign_order python (pos 8) "a" to_bob quarters

abbrev ann_waits : Account
ann_waits = record (account_of "ann" (pos 100)) {
  pending_confirmation = some signed_to_bob;
  last_update = pos 8;
}

abbrev waiting : World
waiting = record node_a {
  node = record node_a.node { accounts = insert "ann" ann_waits node_a.node.accounts };
}

handle_transfer-pending_example : handle_transfer python (pos 10) to_eve waiting ≡ (
  ok (if validate_transfer python to_eve waiting.node then some signed_to_bob else none),
  waiting,
)
handle_transfer-pending_example =
    handle_transfer-pending python (pos 10) to_eve waiting ann_waits signed_to_bob refl refl
