-- ===== src/Client/Monad.antt =====
-- A method of `Client`: it works on the client and on the registry file, and may raise. What was
-- written before a raise stays written.
use meshpay.Base.{String, Dict}
use meshpay.Value.{Result, ok, err, Error}
use meshpay.Transaction.Transfer.{TransferOrder}
use meshpay.Transaction.Signed.{SignedTransferOrder}
use meshpay.Transaction.Confirmation.{ConfirmationOrder}
use meshpay.Registry.{Registry, RegistryFile}
use meshpay.Wallet.{Wallet}

pub record Client : Type 0 where
  pub name : String
  pub registry : Registry
  pub accounts : Dict Wallet
  pub pending_by_account : Dict String
  pub pending_transfers : Dict TransferOrder
  pub signed_transfer_orders : Dict (Dict SignedTransferOrder)
  pub confirmation_orders : Dict ConfirmationOrder

pub record Station : Type 0 where
  pub client : Client
  pub file : RegistryFile

abbrev pub C : Type 0 → Type 0
C T = Station → Result T × Station

abbrev pub answer : {T : Type 0} → T → C T
answer t z = (ok t, z)

abbrev pub fail : {T : Type 0} → Error → C T
fail e z = (err e, z)

abbrev pub chain : {S T : Type 0} → (S → C T) → Result S × Station → Result T × Station
chain f (err e, z) = (err e, z)
chain f (ok s, z) = f s z

infixl 5 ◌>>=◌ ◌>>◌
abbrev pub ◌>>=◌ : {S T : Type 0} → C S → (S → C T) → C T
◌>>=◌ m f z = chain f (m z)

abbrev pub ◌>>◌ : {S T : Type 0} → C S → C T → C T
first >> second = first >>= λ _. second

abbrev pub asks : {T : Type 0} → (Client → T) → C T
asks f z = (ok (f z.client), z)

abbrev pub change : (Client → Client) → C (Unit {0})
change f z = (ok tt, record z { client = f z.client })

abbrev pub keep_file : {T : Type 0} → Station → Result (T × RegistryFile) → Result T × Station
keep_file z (err e) = (err e, z)
keep_file z (ok (t, file')) = (ok t, record z { file = file' })

-- A call of the registry: one that raises leaves the file.
abbrev pub on_registry : {T : Type 0} → (Registry → RegistryFile → Result (T × RegistryFile)) → C T
on_registry f z = keep_file z (f z.client.registry z.file)

-- A step that may raise and changes nothing.
abbrev pub lift : {T : Type 0} → Result T → C T
lift r z = (r, z)
