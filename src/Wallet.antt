-- ===== src/Wallet.antt =====
-- `Wallet` (meshpay/offline/wallet.py) and `AccountOffchainState` (meshpay/types/state.py).
use meshpay.Base.{Bool, ◌&&◌, String, ℤ, pos, ◌+ℤ◌, ◌-ℤ◌, ltb_ℤ, leb_ℤ}
use meshpay.Value.{Result, ok, value_error, raise_if, ◌>>◌}

pub record Wallet : Type 0 where
  pub owner : String
  pub balance : ℤ
  pub sequence_number : ℤ

-- `Wallet.next_sequence`: the new wallet and the number.
abbrev pub next_sequence : Wallet → Wallet × ℤ
next_sequence w = let n = w.sequence_number +ℤ pos 1 in (record w { sequence_number = n }, n)

-- `can_debit`, of a wallet and of an account, by its balance.
abbrev pub can_debit : ℤ → ℤ → Bool
can_debit balance amount = ltb_ℤ (pos 0) amount && leb_ℤ amount balance

-- `Wallet.debit`
abbrev pub debit : Wallet → ℤ → Result Wallet
debit w amount = do
  raise_if (leb_ℤ amount (pos 0)) value_error
  raise_if (ltb_ℤ w.balance amount) value_error
  ok (record w { balance = w.balance -ℤ amount })

-- `Wallet.credit`
abbrev pub credit : Wallet → ℤ → Result Wallet
credit w amount = do
  raise_if (leb_ℤ amount (pos 0)) value_error
  ok (record w { balance = w.balance +ℤ amount })
