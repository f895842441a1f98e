-- ===== src/Authority/Monad.antt =====
-- A method of `Authority`: it works on the authority and on the registry file, and may raise. What
-- was written before a raise stays written.
use meshpay.Base.{◌≡◌, ap, Option, none, some, String, ℕ, Dict, lookup, insert}
use meshpay.Value.{Result, ok, err, Error, key_error}
use meshpay.Registry.{Registry, RegistryFile}
use meshpay.Account.{Account}

pub record Authority : Type 0 where
  pub name : String
  pub registry : Registry
  pub accounts : Dict Account
  pub tx_count : ℕ
  pub current_weight : ℕ

pub record World : Type 0 where
  pub node : Authority
  pub file : RegistryFile

abbrev pub M : Type 0 → Type 0
M A = World → Result A × World

module _ {A : Type 0} where
  abbrev pub pure : A → M A
  pure a w = (ok a, w)

  abbrev pub raise : Error → M A
  raise e w = (err e, w)

  abbrev pub from_result : Result A → M A
  from_result r w = (r, w)

  abbrev pub gets : (Authority → A) → M A
  gets f w = (ok (f w.node), w)

  abbrev pub commit : World → Result (A × RegistryFile) → Result A × World
  commit w (ok (a, file')) = (ok a, record w { file = file' })
  commit w (err e) = (err e, w)

  -- A call of the registry: one that raises leaves the file.
  abbrev pub with_registry : (Registry → RegistryFile → Result (A × RegistryFile)) → M A
  with_registry f w = commit w (f w.node.registry w.file)

abbrev pub and_then : {A B : Type 0} → (A → M B) → Result A × World → Result B × World
and_then f (ok a, w) = f a w
and_then f (err e, w) = (err e, w)

infixl 5 ◌>>=◌ ◌>>◌
abbrev pub ◌>>=◌ : {A B : Type 0} → M A → (A → M B) → M B
◌>>=◌ m f w = and_then f (m w)

abbrev pub ◌>>◌ : {A B : Type 0} → M A → M B → M B
m >> k = m >>= λ _. k

abbrev pub modify : (Authority → Authority) → M (Unit {0})
modify f w = (ok tt, record w { node = f w.node })

abbrev pub or_key_error : {A : Type 0} → Option A → M A
or_key_error none w = (err key_error, w)
or_key_error (some a) w = (ok a, w)

-- `self.state.accounts[address]`
abbrev pub account_at : String → M Account
account_at address w = or_key_error (lookup address w.node.accounts) w

-- The account object at an address has changed.
abbrev pub store_account : String → Account → M (Unit {0})
store_account address a = modify (λ n. record n { accounts = insert address a n.accounts })

pub with_registry-ok :
    {A : Type 0} (f : Registry → RegistryFile → Result (A × RegistryFile)) (w : World) {a : A}
    {file' : RegistryFile}
    → f w.node.registry w.file ≡ ok (a, file')
    → with_registry f w ≡ (ok a, record w { file = file' })
with_registry-ok f w h = ap (commit w) h

pub account_at-ok :
    (address : String) (w : World) {a : Account}
    → lookup address w.node.accounts ≡ some a
    → account_at address w ≡ (ok a, w)
account_at-ok address w h = ap (λ o. or_key_error o w) h
