-- ===== src/Client/Collect.antt =====
-- A vote for a pending order: with it the quorum is reached, or not yet.
use meshpay.Base.{
  ◌≡◌, refl, ◌∙◌, true, false, none, some, String, ◌==◌, eq_refl, eq_iff, if◌then◌else◌, Dict,
  lookup, insert, erase, has_key, lookup-insert, ℤ, pos, ◌-ℤ◌, eq_ℤ, ltb_ℤ, leb_ℤ, arith, [],
}
use mathlib.Core.Option.{get_or}
use meshpay.Value.{ok}
use meshpay.Runtime.{Runtime}
use meshpay.Transaction.Transfer.{TransferOrder}
use meshpay.Transaction.Signed.{SignedTransferOrder}
use meshpay.Quorum.{WeightSnapshot, verify_authority_vote, has_weighted_quorum}
use meshpay.Registry.{RegistryFile, snapshot_for_epoch, record_finalization}
use meshpay.Wallet.{Wallet}
use meshpay.Client.{
  votes_of, other_epoch, signers_of, certificate, finish, collect, check_vote,
  handle_signed_transfer, account_balance,
}
use meshpay.Client.Monad.{Station}

module _ (rt : Runtime) (now : ℤ) (signed : SignedTransferOrder) (z : Station)
    (pending : TransferOrder) (s : WeightSnapshot) (file' : RegistryFile)
    (waits : lookup (rt.uuid_str signed.transfer_order.order_id) z.client.pending_transfers
      ≡ some pending)
    (hosted : has_key signed.transfer_order.sender z.client.accounts ≡ true)
    (same_sequence : eq_ℤ signed.transfer_order.sequence_number pending.sequence_number ≡ true)
    (found : snapshot_for_epoch rt z.client.registry signed.authority_vote.epoch z.file
      ≡ ok (some s, file'))
    (verified : verify_authority_vote rt signed.transfer_order signed.authority_vote s ≡ true) where
  abbrev id : String
  id = rt.uuid_str signed.transfer_order.order_id

  -- The signed orders that were there before.
  abbrev signatures : Dict SignedTransferOrder
  signatures = get_or (lookup id z.client.signed_transfer_orders) []

  abbrev signatures' : Dict SignedTransferOrder
  signatures' = insert signed.authority_vote.authority signed signatures

  abbrev opened : Station
  opened = record z {
    client = record z.client {
      signed_transfer_orders = insert id signatures z.client.signed_transfer_orders;
    };
    file = file';
  }

  abbrev stored : Station
  stored = record z {
    client = record z.client {
      signed_transfer_orders =
          insert id signatures' (insert id signatures z.client.signed_transfer_orders);
    };
    file = file';
  }

  abbrev paid : Wallet → RegistryFile → Station
  paid wallet file'' = record z {
    client = record z.client {
      accounts =
          insert pending.sender (record wallet { balance = wallet.balance -ℤ pending.amount })
            z.client.accounts;
      confirmation_orders =
          insert id (certificate rt now pending (votes_of signatures') s)
            z.client.confirmation_orders;
      pending_transfers = erase id z.client.pending_transfers;
      signed_transfer_orders =
          erase id (insert id signatures' (insert id signatures z.client.signed_transfer_orders));
      pending_by_account = erase pending.sender z.client.pending_by_account;
    };
    file = file'';
  }

  check_vote-collects :
      other_epoch signatures signed.authority_vote.epoch ≡ false
      → handle_signed_transfer rt now signed z ≡ collect rt now signed pending signatures s opened
  unfolding handle_signed_transfer check_vote
  check_vote-collects same =
      rw (handle_signed_transfer, waits, hosted, same_sequence, check_vote, found, verified, same)

  -- For a vote that verifies, of the epoch of those collected before, on an order that is pending and
  -- of a hosted account: short of a quorum the vote is stored, no confirmation is made and no account
  -- and no pending order changes.
  pub handle_signed_transfer-waits :
      other_epoch signatures signed.authority_vote.epoch ≡ false
      → has_weighted_quorum rt pending (votes_of signatures') s ≡ false
      → (z' : Station) × (handle_signed_transfer rt now signed z ≡ (ok none, z'))
        × (lookup id z'.client.signed_transfer_orders ≡ some signatures')
        × (z'.client.accounts ≡ z.client.accounts)
        × (z'.client.pending_transfers ≡ z.client.pending_transfers)
  unfolding collect
  handle_signed_transfer-waits same short = (
    stored,
    check_vote-collects same ∙ rw (collect, short),
    lookup-insert id id signatures' (insert id signatures z.client.signed_transfer_orders)
        ∙ rw (eq_refl id),
    refl,
    refl,
  )

  -- For a vote that verifies, of the epoch of those collected before, on an order that is pending and
  -- of a hosted account: with a quorum and enough on the account, and where the registry records the
  -- finalization, the client makes the confirmation of the pending order with the collected votes, takes the amount from
  -- the account, and nothing is pending for the order and the account any more.
  pub handle_signed_transfer-pays :
      (wallet : Wallet) (s' : WeightSnapshot) (file'' : RegistryFile)
      → other_epoch signatures signed.authority_vote.epoch ≡ false
      → has_weighted_quorum rt pending (votes_of signatures') s ≡ true
      → lookup pending.sender z.client.accounts ≡ some wallet
      → leb_ℤ pending.amount (pos 0) ≡ false
      → ltb_ℤ wallet.balance pending.amount ≡ false
      → record_finalization rt z.client.registry id (signers_of (votes_of signatures')) file'
        ≡ ok (s', file'')
      → (z' : Station) × (handle_signed_transfer rt now signed z
          ≡ (ok (some (certificate rt now pending (votes_of signatures') s)), z'))
        × ((j : String)
            → account_balance z'.client j ≡ (
                if pending.sender == j
                then account_balance z.client j -ℤ pending.amount
                else account_balance z.client j))
        × (z'.client.pending_transfers ≡ erase id z.client.pending_transfers)
        × (z'.client.pending_by_account ≡ erase pending.sender z.client.pending_by_account)
        × (z'.file ≡ file'')
  unfolding collect finish account_balance
  handle_signed_transfer-pays wallet s' file'' same quorum owned positive covered recorded = (
    paid wallet file'',
    check_vote-collects same ∙ rw (collect, quorum, finish, owned, positive, covered, recorded),
    λ j. ground (
      arith,
      owned,
      lookup-insert pending.sender j (record wallet { balance = wallet.balance -ℤ pending.amount })
          z.client.accounts,
      eq_iff pending.sender j,
    ),
    refl,
    refl,
    refl,
  )
