-- ===== src/Account.antt =====
-- `AccountOffchainState` (meshpay/types/state.py): an account as an authority keeps it.
use meshpay.Base.{not, Option, none, String, ℤ, pos, ◌+ℤ◌, ◌-ℤ◌, max_ℤ, leb_ℤ, Dict, []}
use meshpay.Value.{Result, ok, value_error, raise_if, ◌>>◌}
use meshpay.Transaction.Signed.{SignedTransferOrder}
use meshpay.Transaction.Confirmation.{ConfirmationOrder}
use meshpay.Wallet.{can_debit}

pub record Account : Type 0 where
  pub address : String
  pub balance : ℤ
  pub sequence_number : ℤ
  pub last_update : ℤ
  pub pending_confirmation : Option SignedTransferOrder
  pub confirmed_transfers : Dict ConfirmationOrder

-- `AccountOffchainState.debit`
unfoldable pub debit : ℤ → Account → ℤ → Result Account
debit now a amount = do
  raise_if (leb_ℤ amount (pos 0)) value_error
  raise_if (not (can_debit a.balance amount)) value_error
  ok (record a { balance = a.balance -ℤ amount; last_update = now })

-- `AccountOffchainState.credit`
unfoldable pub credit : ℤ → Account → ℤ → Result Account
credit now a amount = do
  raise_if (leb_ℤ amount (pos 0)) value_error
  ok (record a { balance = a.balance +ℤ amount; last_update = now })

-- `AccountOffchainState.set_sequence`
unfoldable pub set_sequence : ℤ → Account → ℤ → Account
set_sequence now a n = record a { sequence_number = max_ℤ a.sequence_number n; last_update = now }

-- The account that `register_account` creates.
unfoldable pub new_account : ℤ → String → ℤ → Account
new_account now address balance = record {
  address = address;
  balance = balance;
  sequence_number = pos 0;
  last_update = now;
  pending_confirmation = none;
  confirmed_transfers = [];
}
