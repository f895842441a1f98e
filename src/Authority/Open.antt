-- ===== src/Authority/Open.antt =====
-- `_get_or_create_account`: the accounts with one of them there.
use meshpay.Base.{
  ◌≡◌, refl, ap, none, some, String, ◌==◌, eq_iff, if◌then◌else◌, Dict, lookup, insert,
  lookup-insert, ℤ, pos, int_laws, arith, Option-cases, inl, inr,
}
use meshpay.Value.{ok}
use meshpay.Account.{Account, new_account}
use meshpay.Authority.{register_account, get_or_create_account}
use meshpay.Authority.Monad.{World}
use meshpay.Authority.Balances.{total_balance, total_balance-insert_new}

-- An account with nothing on it is added under an address that has none.
abbrev pub opened : ℤ → String → Dict Account → Dict Account
opened now address d = elim (lookup address d) [
  | some _ ↦ d
  | none ↦ insert address (new_account now address (pos 0)) d
]

module _ (now : ℤ) (address : String) where
  pub get_or_create_account-opened :
      (w : World)
      → get_or_create_account now address w ≡ (
        ok tt,
        record w { node = record w.node { accounts = opened now address w.node.accounts } },
      )
  unfolding get_or_create_account register_account
  get_or_create_account-opened w = elim (Option-cases (lookup address w.node.accounts)) [
    | inl missing ↦ rw (get_or_create_account, opened, missing)
    | inr (a, found) ↦ rw (get_or_create_account, opened, found)
  ]

  new_account-balance : (new_account now address (pos 0)).balance ≡ pos 0
  unfolding new_account
  new_account-balance = refl

  pub opened-total : (d : Dict Account) → total_balance (opened now address d) ≡ total_balance d
  opened-total d = elim (Option-cases (lookup address d)) [
    | inl missing ↦ grind (
      int_laws,
      missing,
      total_balance-insert_new address (new_account now address (pos 0)) d,
      new_account-balance,
    )
    | inr (a, found) ↦ ap total_balance (rw (opened, found))
  ]

  -- An account that was there is still there, and others stay away.
  pub lookup-opened :
      (d : Dict Account) (j : String)
      → lookup j (opened now address d) ≡ elim (lookup j d) [
        | some a ↦ some a
        | none ↦ if address == j then some (new_account now address (pos 0)) else none
      ]
  lookup-opened d j =
      ground (arith, lookup-insert address j (new_account now address (pos 0)) d, eq_iff address j)
