-- ===== src/Authority/Start.antt =====
-- The constructor of `Authority` (meshpay/offline/nodes/authority.py), without the network's station
-- and address.
use Prim.Native.String as Str
use Prim.Native.String.{◌++◌}
use Prim.Native.String.append
use meshpay.Base.{
  ap, ◌∙◌, none, keys, lookup, ◌≢◌, IsNodup, eq_iff, All-sort_names, All-unique, ℕ, ◌<◌, ◌≤◌, ◌≡◌,
  refl, true, false, some, String, Dict, insert, lookup-insert, ℤ, pos, leb_ℤ, List, [], ◌∷◌, All,
  length, unique, sort_names, unique-IsNodup, sort_names-IsNodup, length-sort_names,
  length-unique_pos, arith,
}
use meshpay.Value.{Result, ok, ◌>>=◌}
use meshpay.Runtime.{Runtime}
use meshpay.Quorum.{weight_for}
use meshpay.Weights.{total_weight_units}
use meshpay.Registry.{
  Registry, RegistryFile, is_empty, is_ascii, join_names, new_registry, initialize,
}
use meshpay.Registry.Invariant.{IsRegistry, IsValidFile}
use meshpay.Registry.Initialize.{initialize-IsSound}
use meshpay.Account.{Account, new_account}
use meshpay.Authority.Monad.{World}
use meshpay.Authority.Solvent.{IsSolvent}
use meshpay.Authority.Refresh.{IsReady}

-- The loop over the initial balances.
unfoldable pub register_all : ℤ → Dict ℤ → Dict Account → Dict Account
register_all now [] accounts = accounts
register_all now ((address, balance) ∷ rest) accounts =
    register_all now rest (insert address (new_account now address balance) accounts)

-- `Authority.__init__`
unfoldable pub new_authority :
    Runtime → ℤ → String → List String → Dict ℤ → ℕ → ℕ → RegistryFile → Result World
new_authority rt now name committee balances epoch_size share file = do
  reg ← new_registry committee epoch_size share
  (s, file') ← initialize rt reg file
  ok (record {
    node = record {
      name = name;
      registry = reg;
      accounts = register_all now balances [];
      tx_count = 0;
      current_weight = weight_for s name;
    };
    file = file';
  })

-- The registry of the constructor's arguments.
abbrev pub registry_of : List String → ℕ → ℕ → Registry
registry_of committee epoch_size share = record {
  committee = sort_names (unique committee);
  epoch_size = epoch_size;
  max_power_share = share;
}

is_empty-long : (xs : List String) → 0 < length xs → is_empty xs ≡ false
is_empty-long [] h = absurd (omega (arith, h))
is_empty-long (x ∷ xs) h = refl

is_ascii-append : (s t : String) → is_ascii s ≡ true → is_ascii t ≡ true → is_ascii (s ++ t) ≡ true
is_ascii-append Str.[] t h k = ap is_ascii (append.nil t) ∙ k
is_ascii-append (Str.◌∷◌ c s) t h k =
    ap is_ascii (append.cons c s t) ∙ ground (arith, h, is_ascii-append s t (ground (arith, h)) k)

is_ascii-join_names :
    (xs : List String) → All (λ n. is_ascii n ≡ true) xs → is_ascii (join_names xs) ≡ true
is_ascii-join_names [] h = refl
is_ascii-join_names (x ∷ []) h = h.0
is_ascii-join_names (x ∷ y ∷ rest) h =
    is_ascii-append x ("," ++ join_names (y ∷ rest)) h.0
      (is_ascii-append "," (join_names (y ∷ rest)) refl (is_ascii-join_names (y ∷ rest) h.1))

new_account-IsSolvent :
    (now : ℤ) (address : String) (balance : ℤ) (d : Dict Account)
    → leb_ℤ (pos 0) balance ≡ true
    → IsSolvent d
    → IsSolvent (insert address (new_account now address balance) d)
unfolding new_account
new_account-IsSolvent now address balance d h solvent j =
    grind (arith, lookup-insert address j (new_account now address balance) d, h, solvent j)

register_all-IsSolvent :
    (now : ℤ) (balances : Dict ℤ) (d : Dict Account)
    → All (λ e. leb_ℤ (pos 0) e.1 ≡ true) balances
    → IsSolvent d
    → IsSolvent (register_all now balances d)
unfolding register_all
register_all-IsSolvent now [] d h solvent = solvent
register_all-IsSolvent now ((address, balance) ∷ rest) d (here, h) solvent =
    register_all-IsSolvent now rest (insert address (new_account now address balance) d) h
      (new_account-IsSolvent now address balance d here solvent)

-- The accounts are those of the initial balances, each as it is opened.
abbrev pub AreOpened : ℤ → Dict ℤ → Dict Account → Type 0
AreOpened now balances d =
    (j : String)
    → lookup j d ≡ elim (lookup j balances) [
      | none ↦ none
      | some balance ↦ some (record {
        address = j;
        balance = balance;
        sequence_number = pos 0;
        last_update = now;
        pending_confirmation = none;
        confirmed_transfers = [];
      })
    ]

lookup-missing : (j : String) (d : Dict ℤ) → All (λ k. k ≢ j) (keys d) → lookup j d ≡ none
lookup-missing j [] h = refl
lookup-missing j ((k, b) ∷ d) (other, h) = ground (arith, other, eq_iff k j, lookup-missing j d h)

lookup-register_all :
    (now : ℤ) (balances : Dict ℤ) (d : Dict Account) (j : String)
    → IsNodup (keys balances)
    → lookup j (register_all now balances d) ≡ elim (lookup j balances) [
      | none ↦ lookup j d
      | some balance ↦ some (new_account now j balance)
    ]
unfolding register_all
lookup-register_all now [] d j nodup = refl
lookup-register_all now ((address, balance) ∷ rest) d j (new, nodup) = ground (
  arith,
  lookup-register_all now rest (insert address (new_account now address balance) d) j nodup,
  lookup-insert address j (new_account now address balance) d,
  eq_iff address j,
  lookup-missing address rest new,
)

register_all-AreOpened :
    (now : ℤ) (balances : Dict ℤ)
    → IsNodup (keys balances)
    → AreOpened now balances (register_all now balances [])
unfolding new_account
register_all-AreOpened now balances nodup j = lookup-register_all now balances [] j nodup

module _ (committee : List String) (epoch_size share : ℕ) (members : 0 < length committee)
    (named : All (λ n. is_ascii n ≡ true) committee) (sized : 0 < epoch_size)
    (some_share : 0 < share) (whole : share ≤ total_weight_units) where
  names_left : 0 < length (sort_names (unique committee))
  names_left =
      omega (arith, length-sort_names (unique committee), length-unique_pos committee members)

  pub new_registry-ok :
      new_registry committee epoch_size share ≡ ok (registry_of committee epoch_size share)
  unfolding new_registry
  new_registry-ok =
      ground
        (arith, is_empty-long (sort_names (unique committee)) names_left, sized, some_share, whole)

  pub registry_of-IsRegistry : IsRegistry (registry_of committee epoch_size share)
  registry_of-IsRegistry = record {
    members = names_left;
    distinct = sort_names-IsNodup (unique committee) (unique-IsNodup committee);
    sized = sized;
    ascii = is_ascii-join_names (sort_names (unique committee)) (
        All-sort_names (λ n. is_ascii n ≡ true) (unique committee)
          (All-unique (λ n. is_ascii n ≡ true) committee named));
  }

  -- With a committee of ASCII names that is not empty, a positive epoch size and a share above nothing
  -- and up to all of the power, and where the initial balances are of different addresses and none is
  -- negative, an authority starts on an absent file or one that is valid for its registry. The registry
  -- and the file are then in order, no balance is negative, and the accounts are those of the initial
  -- balances, each with its balance and nothing sent or pending.
  pub new_authority-IsReady :
      (rt : Runtime) (now : ℤ) (name : String) (balances : Dict ℤ) (file : RegistryFile)
      → IsValidFile rt (registry_of committee epoch_size share) file
      → All (λ e. leb_ℤ (pos 0) e.1 ≡ true) balances
      → IsNodup (keys balances)
      → (w : World) × (new_authority rt now name committee balances epoch_size share file ≡ ok w)
        × IsReady rt w
        × IsSolvent w.node.accounts
        × AreOpened now balances w.node.accounts
  unfolding new_authority
  new_authority-IsReady rt now name balances file valid positive nodup =
      let reg = registry_of committee epoch_size share in
      let (s, st, found, good, sound, again) =
        initialize-IsSound rt reg file registry_of-IsRegistry valid in
      (
        record {
          node = record {
            name = name;
            registry = reg;
            accounts = register_all now balances [];
            tx_count = 0;
            current_weight = weight_for s name;
          };
          file = some st;
        },
        rw (new_registry-ok, found),
        record { registry = registry_of-IsRegistry; file = good },
        register_all-IsSolvent now balances [] positive (λ j. refl),
        register_all-AreOpened now balances nodup,
      )
