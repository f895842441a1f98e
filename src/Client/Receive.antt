-- ===== src/Client/Receive.antt =====
-- What a client does with a confirmation for one of its accounts.
use meshpay.Base.{
  ◌≡◌, true, false, some, String, ◌==◌, eq_refl, eq_iff, if◌then◌else◌, lookup, insert, has_key,
  has_key-lookup, lookup-insert, ℤ, pos, ◌+ℤ◌, leb_ℤ, arith,
}
use meshpay.Value.{ok}
use meshpay.Runtime.{Runtime}
use meshpay.Transaction.Confirmation.{ConfirmationOrder}
use meshpay.Quorum.{WeightSnapshot}
use meshpay.Registry.{RegistryFile, snapshot_for_epoch}
use meshpay.Wallet.{Wallet}
use meshpay.Authority.{is_certified}
use meshpay.Client.{accept, handle_confirmation, account_balance}
use meshpay.Client.Monad.{Station}

module _ (rt : Runtime) (c : ConfirmationOrder) where
  abbrev recipient : String
  recipient = c.transfer_order.recipient

  abbrev amount : ℤ
  amount = c.transfer_order.amount

  abbrev id : String
  id = rt.uuid_str c.transfer_order.order_id

  -- A confirmation that is known is refused.
  seen_refused :
      (z : Station)
      → has_key id z.client.confirmation_orders ≡ true
      → handle_confirmation rt c z ≡ (ok false, z)
  unfolding handle_confirmation
  seen_refused z seen = ground (arith, seen)

  module _ (z : Station) where
    known_after : has_key id (insert id c z.client.confirmation_orders) ≡ true
    known_after = ground (arith, lookup-insert id id c z.client.confirmation_orders, eq_refl id)

    abbrev credited_station : Wallet → RegistryFile → Station
    credited_station wallet file' = record z {
      client = record z.client {
        accounts =
            insert recipient (record wallet { balance = wallet.balance +ℤ amount })
              z.client.accounts;
        confirmation_orders = insert id c z.client.confirmation_orders;
      };
      file = file';
    }

    accept-eq :
        (wallet : Wallet) (file' : RegistryFile)
        → lookup recipient z.client.accounts ≡ some wallet
        → leb_ℤ amount (pos 0) ≡ false
        → accept rt c (record z { file = file' }) ≡ (ok true, credited_station wallet file')
    unfolding accept
    accept-eq wallet file' hosted positive = rw (accept, hosted, positive)

    accepts :
        (wallet : Wallet) (s : WeightSnapshot) (file' : RegistryFile)
        → lookup recipient z.client.accounts ≡ some wallet
        → has_key id z.client.confirmation_orders ≡ false
        → leb_ℤ amount (pos 0) ≡ false
        → snapshot_for_epoch rt z.client.registry c.quorum_epoch z.file ≡ ok (some s, file')
        → is_certified rt c (some s) ≡ true
        → handle_confirmation rt c z ≡ (ok true, credited_station wallet file')
    unfolding handle_confirmation
    accepts wallet s file' hosted new positive found certified = rw (
      handle_confirmation,
      has_key-lookup recipient z.client.accounts hosted,
      new,
      found,
      certified,
      accept-eq wallet file' hosted positive,
    )

    -- A certified confirmation of a positive amount that is new to the client, for an account that it
    -- hosts, gets a yes: the amount is added to that account and to no other, and from then on the same
    -- confirmation gets a no and changes nothing.
    pub handle_confirmation-credits :
        (wallet : Wallet) (s : WeightSnapshot) (file' : RegistryFile)
        → lookup recipient z.client.accounts ≡ some wallet
        → has_key id z.client.confirmation_orders ≡ false
        → leb_ℤ amount (pos 0) ≡ false
        → snapshot_for_epoch rt z.client.registry c.quorum_epoch z.file ≡ ok (some s, file')
        → is_certified rt c (some s) ≡ true
        → (z' : Station) × (handle_confirmation rt c z ≡ (ok true, z'))
          × ((j : String)
              → account_balance z'.client j ≡ (
                  if recipient == j
                  then account_balance z.client j +ℤ amount
                  else account_balance z.client j))
          × (handle_confirmation rt c z' ≡ (ok false, z'))
    unfolding account_balance
    handle_confirmation-credits wallet s file' hosted new positive found certified = (
      credited_station wallet file',
      accepts wallet s file' hosted new positive found certified,
      λ j. ground (
        arith,
        hosted,
        lookup-insert recipient j (record wallet { balance = wallet.balance +ℤ amount })
            z.client.accounts,
        eq_iff recipient j,
      ),
      seen_refused (credited_station wallet file') known_after,
    )
