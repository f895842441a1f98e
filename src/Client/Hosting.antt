-- ===== src/Client/Hosting.antt =====
-- A new client hosts its accounts.
use Prim.Native.String as Str
use Prim.Native.String.{◌++◌}
use Prim.Native.String.append
use mathlib.Core.Path.{subst}
use meshpay.Registry.{is_ascii}
use meshpay.Base.{
  ◌+◌, ◌⊎◌, lookup, lookup-insert, eq_refl, nat_eq, pos, ℕ, zero, suc, ◌≤◌, ◌<◌, ◌≡◌, refl, ap, ◌∙◌,
  true, false, some, String, ℤ, List, [], ◌∷◌, All, length, Dict, insert, arith, Bool-cases, inl,
  inr, ◌==◌, eq_iff,
}
use meshpay.Value.{ok}
use meshpay.Runtime.{Runtime}
use meshpay.Weights.{total_weight_units}
use meshpay.Registry.{RegistryFile}
use meshpay.Registry.Invariant.{IsValidFile}
use meshpay.Registry.Initialize.{initialize-IsSound}
use meshpay.Authority.Start.{registry_of, new_registry-ok, registry_of-IsRegistry}
use meshpay.Wallet.{Wallet}
use meshpay.Client.Monad.{Station}
use meshpay.Client.Accounts.{
  make_account_id, is_slash, account_host, is_virtual_account, new_wallet, add_accounts,
  first_accounts, new_client, five_digits,
}

slash_first : (t : String) → account_host ("/u" ++ t) ≡ ""
unfolding account_host
slash_first t = ap account_host (append.cons "/" "u" t)

slash_there : (t : String) → is_virtual_account ("/u" ++ t) ≡ true
unfolding is_virtual_account
slash_there t = ap is_virtual_account (append.cons "/" "u" t)

account_host-append :
    (s t : String) → is_virtual_account s ≡ false → account_host t ≡ "" → account_host (s ++ t) ≡ s
unfolding account_host is_virtual_account
account_host-append Str.[] t plain ends = ap account_host (append.nil t) ∙ ends
account_host-append (Str.◌∷◌ c s) t plain ends =
    let other : is_slash c ≡ false = ground (arith, plain) in
    let rest = account_host-append s t (ground (arith, plain)) ends in
    ap account_host (append.cons c s t) ∙ rw other (ap (Str.◌∷◌ c) rest)

is_virtual_account-append :
    (s t : String) → is_virtual_account t ≡ true → is_virtual_account (s ++ t) ≡ true
unfolding is_virtual_account
is_virtual_account-append Str.[] t h = ap is_virtual_account (append.nil t) ∙ h
is_virtual_account-append (Str.◌∷◌ c s) t h =
    ap is_virtual_account (append.cons c s t) ∙ ground (arith, is_virtual_account-append s t h)

account_host-plain : (s : String) → is_virtual_account s ≡ false → account_host s ≡ s
unfolding account_host is_virtual_account
account_host-plain Str.[] plain = refl
account_host-plain (Str.◌∷◌ c s) plain =
    let other : is_slash c ≡ false = ground (arith, plain) in
    rw other (ap (Str.◌∷◌ c) (account_host-plain s (ground (arith, plain))))

module _ (name : String) (plain : is_virtual_account name ≡ false) where
  -- The host of a virtual account is the station it was made for.
  account_host-make_account_id : (index : ℕ) → account_host (make_account_id name index) ≡ name
  unfolding make_account_id
  account_host-make_account_id index =
      account_host-append name ("/u" ++ five_digits index) plain (slash_first (five_digits index))

  -- One of the accounts of the station: its own, or the virtual one of a number up to `n`.
  abbrev pub IsAccountId : ℕ → String → Type 0
  IsAccountId n id =
      (id ≡ name) ⊎ ((index : ℕ) × (1 ≤ index) × (index ≤ n) × (id ≡ make_account_id name index))

  -- An account of the station, with its initial balance.
  pub record IsHosted (n : ℕ) (balance : ℤ) (e : String × Wallet) : Type 0 where
    pub known : IsAccountId n e.0
    pub host : account_host e.0 ≡ name
    pub owner : e.1.owner ≡ e.0
    pub funded : e.1.balance ≡ balance

  -- The account is there, owned under its own name, with the balance and no payment yet.
  abbrev pub IsOpened : ℤ → Dict Wallet → String → Type 0
  IsOpened balance d id =
      lookup id d ≡ some (record { owner = id; balance = balance; sequence_number = pos 0 })

  module _ (balance : ℤ) where
    insert-IsHosted :
        (n : ℕ) (id : String) (d : Dict Wallet)
        → IsAccountId n id
        → account_host id ≡ name
        → All (IsHosted n balance) d
        → All (IsHosted n balance) (insert id (new_wallet id balance) d)
    insert-IsHosted n id [] mine here h =
        (record { known = mine; host = here; owner = refl; funded = refl }, tt)
    insert-IsHosted n id ((j, w) ∷ d) mine here (hj, h) = elim (Bool-cases (j == id)) [
      | inl same ↦ rw same (
        record {
          known = hj.known;
          host = hj.host;
          owner = ground (arith, eq_iff j id, same);
          funded = refl;
        },
        h,
      )
      | inr other ↦ rw other (hj, insert-IsHosted n id d mine here h)
    ]

    add_accounts-IsHosted :
        (n left index : ℕ) (d : Dict Wallet)
        → 1 ≤ index
        → left + index ≤ n + 1
        → All (IsHosted n balance) d
        → All (IsHosted n balance) (add_accounts name balance left index d)
    unfolding add_accounts
    add_accounts-IsHosted n zero index d low high h = h
    add_accounts-IsHosted n (suc left) index d low high h =
        add_accounts-IsHosted n left (suc index) _ (omega (arith, low)) (omega (arith, high)) (
          insert-IsHosted n (make_account_id name index) d
            (inr (index, low, omega (arith, high), refl)) (account_host-make_account_id index) h)

    insert-IsOpened :
        (id k : String) (d : Dict Wallet)
        → IsOpened balance d k
        → IsOpened balance (insert id (new_wallet id balance) d) k
    insert-IsOpened id k d h =
        lookup-insert id k (new_wallet id balance) d ∙ ground (arith, eq_iff id k, h)

    still-IsOpened :
        (left index : ℕ) (k : String) (d : Dict Wallet)
        → IsOpened balance d k
        → IsOpened balance (add_accounts name balance left index d) k
    unfolding add_accounts
    still-IsOpened zero index k d h = h
    still-IsOpened (suc left) index k d h =
        still-IsOpened left (suc index) k _ (insert-IsOpened (make_account_id name index) k d h)

    opens :
        (left index : ℕ) (d : Dict Wallet) (i : ℕ)
        → index ≤ i
        → i < left + index
        → IsOpened balance (add_accounts name balance left index d) (make_account_id name i)
    unfolding add_accounts
    opens zero index d i low high = absurd (omega (arith, low, high))
    opens (suc left) index d i low high = elim (Bool-cases (nat_eq index i)) [
      | inr later ↦ opens left (suc index) _ i (ground (arith, low, later)) (omega (arith, high))
      | inl here ↦
          let id = make_account_id name index in
          let same : index ≡ i = ground (arith, here) in
          subst
            (λ k.
              IsOpened balance
                (add_accounts name balance left (suc index) (insert id (new_wallet id balance) d))
                (make_account_id name k))
            same
            (still-IsOpened left (suc index) id _
              (lookup-insert id id (new_wallet id balance) d ∙ rw (eq_refl id)))
    ]

  -- With a committee of ASCII names that is not empty, a positive epoch size and a share above nothing
  -- and up to all of the power, a client whose name has no slash starts on an absent file or one that
  -- is valid for its registry. It has an account under its own name and one for each virtual account
  -- from 1 to their number, and no other. Each has the client for its host, is owned under its own
  -- name and holds the initial balance.
  pub new_client-hosts :
      (committee : List String) (epoch_size share : ℕ)
      → 0 < length committee
      → All (λ n. is_ascii n ≡ true) committee
      → 0 < epoch_size
      → 0 < share
      → share ≤ total_weight_units
      → (rt : Runtime) (balance : ℤ) (accounts_per_station : ℕ) (file : RegistryFile)
      → IsValidFile rt (registry_of committee epoch_size share) file
      → (z : Station) × (new_client rt name committee balance accounts_per_station epoch_size share
            file
          ≡ ok z)
        × IsOpened balance z.client.accounts name
        × ((index : ℕ)
            → 1 ≤ index
            → index ≤ accounts_per_station
            → IsOpened balance z.client.accounts (make_account_id name index))
        × All (IsHosted accounts_per_station balance) z.client.accounts
  unfolding new_client first_accounts
  new_client-hosts committee epoch_size share members named sized some_share whole rt balance n file
        valid =
      let reg = registry_of committee epoch_size share in
      let made = new_registry-ok committee epoch_size share members named sized some_share whole in
      let is_registry =
        registry_of-IsRegistry committee epoch_size share members named sized some_share whole in
      let (s, st, found, _, _, _) = initialize-IsSound rt reg file is_registry valid in
      let own : Dict Wallet = (name, new_wallet name balance) ∷ [] in
      (
        record {
          client = record {
            name = name;
            registry = reg;
            accounts = first_accounts name balance n;
            pending_by_account = [];
            pending_transfers = [];
            signed_transfer_orders = [];
            confirmation_orders = [];
          };
          file = some st;
        },
        rw (made, found),
        still-IsOpened balance n 1 name own (rw (eq_refl name)),
        λ index low high. opens balance n 1 own index low (omega (arith, high)),
        add_accounts-IsHosted balance n n 1 own (omega arith) (omega arith) (
          record {
            known = inl refl;
            host = account_host-plain name plain;
            owner = refl;
            funded = refl;
          },
          tt,
        ),
      )
