-- ===== src/Delivery.antt =====
-- The payment path of `MeshPayRuntime` (meshpay/cli/meshpay_cli.py): a payload that the daemon has
-- delivered goes to its node, and what the node answers is sent on. Events and sizes are left out; a
-- set of destinations is a list without repetitions, since a set has no order.
pub mod Votes
pub mod Certificates
use meshpay.Base.{
  Bool, not, Option, none, some, String, ℤ, ◌==◌, if◌then◌else◌, List, [], ◌∷◌, filter, unique,
  Dict, lookup,
}
use meshpay.Value.{Fields, Result, ok, err, Error, value_error}
use meshpay.Runtime.{Runtime}
use meshpay.Transaction.Transfer.{TransferOrder}
use meshpay.Transaction.Signed.{SignedTransferOrder, OrderLookup}
use meshpay.Transaction.Confirmation.{ConfirmationOrder}
use meshpay.Adapter.{
  PaymentObject, transfer_order, signed_transfer_order, confirmation_order, from_payload,
}
use meshpay.Account.{Account}
use meshpay.Authority
use meshpay.Authority.Monad.{World}
use meshpay.Client
use meshpay.Client.Monad.{Client, Station}
use meshpay.Client.Accounts.{account_host}

abbrev pub or_else : {A : Type 0} → Option A → Option A → Option A
or_else (some a) later = some a
or_else none later = later

abbrev pub order_of_confirmation : Option ConfirmationOrder → Option TransferOrder
order_of_confirmation none = none
order_of_confirmation (some c) = some c.transfer_order

-- The order of the first signature.
abbrev pub order_of_signatures : Option (Dict SignedTransferOrder) → Option TransferOrder
order_of_signatures (some ((_, signed) ∷ _)) = some signed.transfer_order
order_of_signatures _ = none

-- `lookup_order` for a client, which has no `state`.
unfoldable pub lookup_client_order : Client → OrderLookup
lookup_client_order c order_id = or_else (lookup order_id c.pending_transfers) (
    or_else (order_of_confirmation (lookup order_id c.confirmation_orders))
      (order_of_signatures (lookup order_id c.signed_transfer_orders)))

module _ (rt : Runtime) where
  -- What one account of an authority knows of an order.
  unfoldable pub account_order : Account → OrderLookup
  account_order a order_id =
      or_else (of_pending a.pending_confirmation)
        (order_of_confirmation (lookup order_id a.confirmed_transfers))
    where
      of_pending : Option SignedTransferOrder → Option TransferOrder
      of_pending none = none
      of_pending (some pending) =
          if rt.uuid_str pending.order_id == order_id then some pending.transfer_order else none

  -- `lookup_order` for an authority, which has accounts only.
  unfoldable pub lookup_authority_order : Dict Account → OrderLookup
  lookup_authority_order [] order_id = none
  lookup_authority_order ((_, a) ∷ rest) order_id =
      or_else (account_order a order_id) (lookup_authority_order rest order_id)

  -- The node gets the object; a payload that raises a `ValueError` is dropped.
  abbrev pub hand_over :
      {W : Type 0}
      → (PaymentObject → W → Result (List PaymentObject) × W)
      → Result PaymentObject
      → W
      → Result (List PaymentObject) × W
  hand_over on_payment_object (ok object) w = on_payment_object object w
  hand_over on_payment_object (err value_error) w = (ok [], w)
  hand_over on_payment_object (err e) w = (err e, w)

  -- `handle_payment_payload` at an authority and at a client: the outgoing objects.
  unfoldable pub handle_at_authority : ℤ → Fields → World → Result (List PaymentObject) × World
  handle_at_authority now payload w =
      hand_over (λ object. Authority.on_payment_object rt now object)
        (from_payload rt (lookup_authority_order w.node.accounts) now payload) w

  unfoldable pub handle_at_client : ℤ → Fields → Station → Result (List PaymentObject) × Station
  handle_at_client now payload z =
      hand_over (λ object. Client.on_payment_object rt now object)
        (from_payload rt (lookup_client_order z.client) now payload) z

-- `route_outgoing_object`: the nodes that the object is sent to.
unfoldable pub destinations : List String → String → PaymentObject → List String
destinations authorities src (signed_transfer_order signed) =
    account_host signed.transfer_order.sender ∷ []
destinations authorities src (confirmation_order c) =
    filter (λ dst. not (dst == src))
      (unique (account_host c.transfer_order.recipient ∷ authorities))
destinations authorities src (transfer_order order) = []
