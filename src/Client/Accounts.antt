-- ===== src/Client/Accounts.antt =====
-- meshpay/offline/virtual_accounts.py, `Client.__init__` and `Client.hosted_accounts`
-- (meshpay/offline/nodes/client.py). The station of the network emulation, which the constructor also
-- sets up, is left out.
use Prim.Native.Char.{Char, code}
use Prim.Native.String as Str
use Prim.Native.String.{◌++◌}
use Prim.Native.String.append
use meshpay.Base.{
  ℕ, zero, suc, ◌/◌, ◌%◌, ltb, nat_eq, Bool, false, ◌||◌, String, ℤ, pos, if◌then◌else◌, List, [],
  ◌∷◌, filter, Dict, insert, keys,
}
use meshpay.Value.{Result, ok, ◌>>=◌}
use meshpay.Runtime.{Runtime}
use meshpay.Registry.{RegistryFile, new_registry, initialize}
use meshpay.Wallet.{Wallet}
use meshpay.Client.Monad.{Client, Station}

-- A decimal digit, and `f"{n:05d}"`: at least five digits.
abbrev pub digit : ℕ → String
digit n =
    if nat_eq n 0
    then "0"
    else if nat_eq n 1
    then "1"
    else if nat_eq n 2
    then "2"
    else if nat_eq n 3
    then "3"
    else if nat_eq n 4
    then "4"
    else if nat_eq n 5
    then "5"
    else if nat_eq n 6
    then "6"
    else if nat_eq n 7
    then "7"
    else if nat_eq n 8
    then "8"
    else "9"

-- The last digits of a number, as many as the first argument says.
unfoldable pub digits : ℕ → ℕ → String
digits zero n = ""
digits (suc k) n = digits k (n / 10) ++ digit (n % 10)

-- How many digits a number has; the fuel is the number itself.
unfoldable pub width : ℕ → ℕ → ℕ
width zero n = 1
width (suc fuel) n = let rest = width fuel (n / 10) in if ltb n 10 then 1 else suc rest

unfoldable pub five_digits : ℕ → String
five_digits n = if ltb (width n n) 5 then digits 5 n else digits (width n n) n

-- `make_account_id`
unfoldable pub make_account_id : String → ℕ → String
make_account_id station_name account_index = station_name ++ ("/u" ++ five_digits account_index)

abbrev pub is_slash : Char → Bool
is_slash c = nat_eq (code c) 47

-- `account_host`: `account_id.split("/", 1)[0]`
unfoldable pub account_host : String → String
account_host Str.[] = Str.[]
account_host (Str.◌∷◌ c s) =
    let rest = account_host s in if is_slash c then Str.[] else Str.◌∷◌ c rest

-- `is_virtual_account`
unfoldable pub is_virtual_account : String → Bool
is_virtual_account Str.[] = false
is_virtual_account (Str.◌∷◌ c s) = is_slash c || is_virtual_account s

abbrev pub new_wallet : String → ℤ → Wallet
new_wallet owner balance = record { owner = owner; balance = balance; sequence_number = pos 0 }

-- The loop over `range(1, accounts_per_station + 1)`, from an index on.
unfoldable pub add_accounts : String → ℤ → ℕ → ℕ → Dict Wallet → Dict Wallet
add_accounts name balance zero index accounts = accounts
add_accounts name balance (suc left) index accounts =
    let account_id = make_account_id name index in
    add_accounts name balance left (suc index)
      (insert account_id (new_wallet account_id balance) accounts)

-- The accounts of a new client.
unfoldable pub first_accounts : String → ℤ → ℕ → Dict Wallet
first_accounts name balance accounts_per_station =
    add_accounts name balance accounts_per_station 1 ((name, new_wallet name balance) ∷ [])

-- `Client.__init__`
unfoldable pub new_client :
    Runtime → String → List String → ℤ → ℕ → ℕ → ℕ → RegistryFile → Result Station
new_client rt name committee balance accounts_per_station epoch_size share file = do
  registry ← new_registry committee epoch_size share
  (_, file') ← initialize rt registry file
  ok (record {
    client = record {
      name = name;
      registry = registry;
      accounts = first_accounts name balance accounts_per_station;
      pending_by_account = [];
      pending_transfers = [];
      signed_transfer_orders = [];
      confirmation_orders = [];
    };
    file = file';
  })

-- `Client.hosted_accounts`
unfoldable pub hosted_accounts : Bool → Client → List String
hosted_accounts virtual_only k =
    let accounts = keys k.accounts in
    if virtual_only then filter is_virtual_account accounts else accounts
