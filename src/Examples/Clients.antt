-- ===== src/Examples/Clients.antt =====
-- Ann's client pays Bob, and Bob's client is paid.
use meshpay.Base.{
  ◌⊎◌, ◌≡◌, ◌≢◌, contains, refl, true, false, none, some, String, ◌==◌, if◌then◌else◌, Dict, lookup,
  ℤ, pos, leb_ℤ, ◌+ℤ◌, ◌-ℤ◌, scale, [], ◌∷◌,
}
use meshpay.Value.{ok, err}
use meshpay.Runtime.{verify_signature, sign_payload, canonical_json}
use meshpay.Transaction.Transfer.{TransferOrder, signing_dict}
use meshpay.Transaction.Signed.{SignedTransferOrder}
use meshpay.Quorum.{verify_authority_vote, has_weighted_quorum, count_votes}
use meshpay.Registry.{RegistryFile, RegistryState, snapshot_for_epoch}
use meshpay.Wallet.{Wallet, can_debit}
use meshpay.Authority.{validate_confirmation, is_certified, all_verify}
use meshpay.Client.{pay, handle_signed_transfer, handle_confirmation, account_balance}
use meshpay.Client.Monad.{Station}
use meshpay.Client.Pay.{may_pay, refusal, pay-can_pay_from, pay-issues}
use meshpay.Client.Settle.{handle_signed_transfer-settles}
use meshpay.Examples.Ready.{registry-IsRegistry, first_state-IsValid}
use meshpay.Transaction.Confirmation.{ConfirmationOrder}
use meshpay.Registry.Invariant.{IsValid}
use meshpay.Authority.Monad.{World}
use meshpay.Account.{Account}
use meshpay.Client.Receive.{handle_confirmation-credits}
use meshpay.Examples.{
  python, registry, first_state, quarters, to_bob, vote_of, three_votes, confirmation_of,
}

abbrev wallet_of : String → ℤ → Wallet
wallet_of owner balance = record { owner = owner; balance = balance; sequence_number = pos 0 }

abbrev station_of : String → ℤ → Station
station_of name balance = record {
  client = record {
    name = name;
    registry = registry;
    accounts = (name, wallet_of name balance) ∷ [];
    pending_by_account = [];
    pending_transfers = [];
    signed_transfer_orders = [];
    confirmation_orders = [];
  };
  file = some first_state;
}

abbrev ann : Station
ann = station_of "ann" (pos 100)

abbrev signed_by : String → SignedTransferOrder
signed_by name = record {
  order_id = 3;
  transfer_order = to_bob;
  authority_vote = vote_of name;
  timestamp = pos 8;
}

-- Ann's client with the order to Bob pending, and what it has collected so far.
abbrev ann_with : Dict SignedTransferOrder → Station
ann_with signatures = record ann {
  client = record ann.client {
    pending_by_account = ("ann", "xxx") ∷ [];
    pending_transfers = ("xxx", to_bob) ∷ [];
    signed_transfer_orders = ("xxx", signatures) ∷ [];
  };
}

pay-can_pay_from_example :
    ((may_pay python (pos 9) 4 "eve" (pos 10) none (ann_with []) ≡ true)
      × ((order : TransferOrder) × (z' : Station) × (pay python
              (pos 9)
              4
              "eve"
              (pos 10)
              none
              (ann_with [])
            ≡ (ok order, z'))
          × (order.amount ≡ pos 10)
          × (order.recipient ≡ "eve")))
    ⊎ ((may_pay python (pos 9) 4 "eve" (pos 10) none (ann_with []) ≡ false)
        × (pay python (pos 9) 4 "eve" (pos 10) none (ann_with [])
            ≡ (err (refusal python (pos 9) 4 "eve" (pos 10) none (ann_with [])), ann_with [])))
pay-can_pay_from_example = pay-can_pay_from python (pos 9) 4 "eve" (pos 10) none (ann_with [])

pay-issues_example :
    (order : TransferOrder) × (z' : Station) × (pay python (pos 7) 3 "bob" (pos 30) none ann
      ≡ (ok order, z'))
    × (order.sender ≡ "ann")
    × (order.amount ≡ pos 30)
    × (order.sequence_number ≡ pos 0 +ℤ pos 1)
    × (verify_signature python order.sender (signing_dict python order) order.signature ≡ true)
    × (lookup "ann" z'.client.pending_by_account ≡ some (python.uuid_str 3))
    × (lookup (python.uuid_str 3) z'.client.pending_transfers ≡ some order)
    × (lookup "ann" z'.client.accounts
        ≡ some (record (wallet_of "ann" (pos 100)) { sequence_number = pos 0 +ℤ pos 1 }))
pay-issues_example =
    pay-issues python (pos 7) 3 "bob" (pos 30) none ann (wallet_of "ann" (pos 100)) refl refl refl
      refl

three_are_quorum : has_weighted_quorum python to_bob three_votes quarters ≡ true
unfolding has_weighted_quorum count_votes verify_authority_vote verify_signature sign_payload
    canonical_json scale ◌+ℤ◌
three_are_quorum = refl

file_found :
    snapshot_for_epoch python registry (pos 0) (some first_state)
    ≡ ok (some quarters, some first_state)
unfolding snapshot_for_epoch
file_found = refl

a_verifies : verify_authority_vote python to_bob (vote_of "a") quarters ≡ true
unfolding verify_authority_vote verify_signature sign_payload canonical_json
a_verifies = refl

c_verifies : verify_authority_vote python to_bob (vote_of "c") quarters ≡ true
unfolding verify_authority_vote verify_signature sign_payload canonical_json
c_verifies = refl

one_is_short : has_weighted_quorum python to_bob (vote_of "a" ∷ []) quarters ≡ false
unfolding has_weighted_quorum count_votes verify_authority_vote verify_signature sign_payload
    canonical_json scale ◌+ℤ◌
one_is_short = refl

abbrev ann_has_two : Station
ann_has_two = ann_with (("a", signed_by "a") ∷ ("b", signed_by "b") ∷ [])

b_verifies : verify_authority_vote python to_bob (vote_of "b") quarters ≡ true
unfolding verify_authority_vote verify_signature sign_payload canonical_json
b_verifies = refl

handle_signed_transfer-settles_example :
    (c : ConfirmationOrder) × (z' : Station) × (st' : RegistryState) × (handle_signed_transfer
        python
        (pos 9)
        (signed_by "c")
        ann_has_two
      ≡ (ok (some c), z'))
    × (c.transfer_order ≡ to_bob)
    × (c.authority_votes ≡ three_votes)
    × ((w : World) (a : Account) (file : RegistryFile)
        → snapshot_for_epoch python w.node.registry (pos 0) w.file ≡ ok (some quarters, file)
        → lookup "ann" w.node.accounts ≡ some a
        → can_debit a.balance (pos 30) ≡ true
        → leb_ℤ to_bob.sequence_number a.sequence_number ≡ false
        → validate_confirmation python c w ≡ (ok true, record w { file = file }))
    × ((j : String)
        → account_balance z'.client j ≡ (
            if "ann" == j
            then account_balance ann_has_two.client j -ℤ pos 30
            else account_balance ann_has_two.client j))
    × (lookup "xxx" z'.client.pending_transfers ≡ none)
    × (lookup "ann" z'.client.pending_by_account ≡ none)
    × ((j : String)
        → "xxx" ≢ j
        → lookup j z'.client.pending_transfers ≡ lookup j ann_has_two.client.pending_transfers)
    × (z'.file ≡ some st')
    × IsValid python registry st'
    × (contains "xxx" st'.finalized_order_ids ≡ true)
handle_signed_transfer-settles_example =
    handle_signed_transfer-settles python (pos 9) (signed_by "c") ann_has_two 0 first_state quarters
      (wallet_of "ann" (pos 100)) registry-IsRegistry first_state-IsValid refl refl refl refl
      (tt, tt) (tt, tt) refl refl refl c_verifies (a_verifies, (b_verifies, tt)) three_are_quorum

bob_certified : is_certified python (confirmation_of to_bob three_votes) (some quarters) ≡ true
unfolding is_certified all_verify has_weighted_quorum count_votes verify_authority_vote
    verify_signature sign_payload canonical_json scale ◌+ℤ◌
bob_certified = refl

handle_confirmation-credits_example :
    (z' : Station) × (handle_confirmation python
        (confirmation_of to_bob three_votes)
        (station_of "bob" (pos 5))
      ≡ (ok true, z'))
    × ((j : String)
        → account_balance z'.client j ≡ (
            if "bob" == j
            then account_balance (station_of "bob" (pos 5)).client j +ℤ pos 30
            else account_balance (station_of "bob" (pos 5)).client j))
    × (handle_confirmation python (confirmation_of to_bob three_votes) z' ≡ (ok false, z'))
handle_confirmation-credits_example =
    handle_confirmation-credits python (confirmation_of to_bob three_votes)
      (station_of "bob" (pos 5)) (wallet_of "bob" (pos 5)) quarters (some first_state) refl refl
      refl file_found bob_certified
