-- ===== src/Delivery/Votes.antt =====
-- An order on its way to an authority, and the vote on its way back.
use meshpay.Base.{
  ◌≡◌, ◌≢◌, refl, ap, ◌∙◌, true, none, some, ℤ, pos, List, [], ◌∷◌, String, lookup, contains,
}
use meshpay.Value.{ok}
use meshpay.Runtime.{Runtime}
use meshpay.Transaction.Transfer.{TransferOrder}
use meshpay.Transaction.Transfer.RoundTrip.{IsStamped}
use meshpay.Transaction.Signed.{SignedTransferOrder}
use meshpay.Adapter.{transfer_order, signed_transfer_order, to_payload, from_payload}
use meshpay.Adapter.RoundTrip.{from_payload-to_payload}
use meshpay.Quorum.{WeightSnapshot, verify_authority_vote}
use meshpay.Registry.Invariant.{IsSound}
use meshpay.Account.{Account}
use meshpay.Authority
use meshpay.Authority.{validate_transfer, handle_transfer, sign_order}
use meshpay.Authority.Monad.{World}
use meshpay.Authority.Refresh.{IsReady}
use meshpay.Authority.Transfer.{handle_transfer-signed}
use meshpay.Client
use meshpay.Client.Monad.{Station}
use meshpay.Client.Accounts.{account_host}
use meshpay.Delivery.{
  handle_at_authority, handle_at_client, hand_over, lookup_client_order, lookup_authority_order,
  destinations,
}

module _ (rt : Runtime) (order : TransferOrder) (stamp : IsStamped order) where
  order-arrives :
      (now : ℤ) (w : World)
      → handle_at_authority rt now (to_payload rt (transfer_order order)) w
        ≡ Authority.on_payment_object rt now (transfer_order order) w
  unfolding handle_at_authority
  order-arrives now w =
      ap (λ r. hand_over rt (λ object. Authority.on_payment_object rt now object) r w)
        (from_payload-to_payload rt (lookup_authority_order rt w.node.accounts) now
          (transfer_order order) stamp)

  signed_answer :
      (now : ℤ) (w w' : World) (signed : SignedTransferOrder)
      → handle_transfer rt now order w ≡ (ok (some signed), w')
      → Authority.on_payment_object rt now (transfer_order order) w
        ≡ (ok (signed_transfer_order signed ∷ []), w')
  unfolding Authority.on_payment_object
  signed_answer now w w' signed signs = rw (Authority.on_payment_object, signs) refl

  order_signed :
      (now : ℤ) (name : String) (s : WeightSnapshot)
      → (sign_order rt now name order s).transfer_order ≡ order
  unfolding sign_order
  order_signed now name s = refl

  module _ (z : Station)
      (pending : lookup (rt.uuid_str order.order_id) z.client.pending_transfers ≡ some order) where
    decoded :
        (now later : ℤ) (name : String) (s : WeightSnapshot)
        → now ≢ pos 0
        → from_payload rt
            (lookup_client_order z.client)
            later
            (to_payload rt (signed_transfer_order (sign_order rt now name order s)))
          ≡ ok (signed_transfer_order (sign_order rt now name order s))
    unfolding sign_order lookup_client_order
    decoded now later name s set =
        from_payload-to_payload rt (lookup_client_order z.client) later
          (signed_transfer_order (sign_order rt now name order s))
          (record { id_fits = stamp.id_fits; time_set = set; order = stamp })
        ∙ rw pending refl

    -- Where a client waits for votes on an order, an authority that is in order, is a committee member,
    -- finds the order valid and has nothing pending for its sender answers the order's payload with one
    -- object, its signature, which goes to the host of the sender. The vote verifies under the
    -- authority's snapshot, and its payload, whenever it arrives, has the client handle just this
    -- signature.
    pub handle_at_authority-votes :
        (authorities : List String) (now : ℤ) (w : World) (a : Account)
        → now ≢ pos 0
        → IsReady rt w
        → validate_transfer rt order w.node ≡ true
        → lookup order.sender w.node.accounts ≡ some a
        → a.pending_confirmation ≡ none
        → contains w.node.name w.node.registry.committee ≡ true
        → (s : WeightSnapshot) × (signed : SignedTransferOrder) × (w' : World)
          × (handle_at_authority rt now (to_payload rt (transfer_order order)) w
              ≡ (ok (signed_transfer_order signed ∷ []), w'))
          × (destinations authorities w.node.name (signed_transfer_order signed)
              ≡ (account_host order.sender ∷ []))
          × IsSound rt w.node.registry s.epoch s
          × (verify_authority_vote rt order signed.authority_vote s ≡ true)
          × ((later : ℤ)
              → handle_at_client rt later (to_payload rt (signed_transfer_order signed)) z
                ≡ Client.on_payment_object rt later (signed_transfer_order signed) z)
    unfolding handle_at_client destinations
    handle_at_authority-votes authorities now w a set ready valid found nothing member =
        let (s, w', signs, verifies, sound) =
          handle_transfer-signed rt now order w a ready valid found nothing member in
        let signed = sign_order rt now w.node.name order s in
        (
          s,
          signed,
          w',
          order-arrives now w ∙ signed_answer now w w' signed signs,
          ap (λ (o : TransferOrder). account_host o.sender ∷ []) (order_signed now w.node.name s),
          sound,
          verifies,
          λ later.
              ap (λ r. hand_over rt (λ object. Client.on_payment_object rt later object) r z)
                (decoded now later w.node.name s set),
        )
