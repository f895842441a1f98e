-- ===== src/Examples/Hosting.antt =====
-- A client with two virtual accounts.
use meshpay.Base.{◌≡◌, refl, none, pos, [], ◌∷◌, ℕ, ◌≤◌, All, arith, false}
use meshpay.Value.{ok}
use meshpay.Client.Monad.{Station}
use meshpay.Client.Accounts.{
  make_account_id, account_host, is_virtual_account, new_client, five_digits, digits, width,
}
use meshpay.Client.Hosting.{IsHosted, IsOpened, new_client-hosts}
use meshpay.Examples.{python}

seventh : make_account_id "sta1" 7 ≡ "sta1/u00007"
unfolding make_account_id five_digits digits width
seventh = refl

hosted_by : account_host "sta1/u00007" ≡ "sta1"
unfolding account_host
hosted_by = refl

no_slash : is_virtual_account "sta1" ≡ false
unfolding is_virtual_account
no_slash = refl

new_client-hosts_example :
    (z : Station) × (new_client python "sta1" ("b" ∷ "a" ∷ []) (pos 100) 2 2 300_000 none ≡ ok z)
    × IsOpened "sta1" no_slash (pos 100) z.client.accounts "sta1"
    × ((index : ℕ)
        → 1 ≤ index
        → index ≤ 2
        → IsOpened "sta1" no_slash (pos 100) z.client.accounts (make_account_id "sta1" index))
    × All (IsHosted "sta1" no_slash 2 (pos 100)) z.client.accounts
new_client-hosts_example =
    new_client-hosts "sta1" no_slash ("b" ∷ "a" ∷ []) 2 300_000 (omega arith) (refl, (refl, tt))
      (omega arith) (omega arith) (omega arith) python (pos 100) 2 none tt
