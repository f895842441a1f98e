-- ===== src/Examples/Deliveries.antt =====
-- Ann's order reaches authority `a`, the vote comes back, and the certificate goes out.
use meshpay.Base.{
  ◌≡◌, refl, true, some, ℤ, pos, [], ◌∷◌, arith, IsNodup, contains, not, ◌&&◌, ◌||◌, String, ◌==◌,
}
use meshpay.Value.{ok}
use meshpay.Runtime.{verify_signature, sign_payload, canonical_json}
use meshpay.Transaction.Transfer.RoundTrip.{IsStamped}
use meshpay.Transaction.Signed.{SignedTransferOrder}
use meshpay.Adapter.{confirmation_order, transfer_order, signed_transfer_order, to_payload}
use meshpay.Quorum.{WeightSnapshot, verify_authority_vote}
use meshpay.Registry.Invariant.{IsSound}
use meshpay.Authority.{validate_transfer, account_allows}
use meshpay.Authority.Monad.{World}
use meshpay.Client
use meshpay.Client.{certificate}
use meshpay.Authority
use meshpay.Transaction.Confirmation.{ConfirmationOrder}
use meshpay.Client.Monad.{Station}
use meshpay.Client.Accounts.{account_host}
use meshpay.Delivery.{
  handle_at_authority, handle_at_client, destinations, lookup_authority_order, lookup_client_order,
  account_order,
}
use meshpay.Delivery.Certificates.{KnowsNoOther, certificate-arrives}
use meshpay.Delivery.Votes.{handle_at_authority-votes}
use meshpay.Examples.{
  python, registry, first_state, node_a, account_of, to_bob, three_votes, quarters,
}
use meshpay.Examples.Ready.{node_a-IsReady}

-- Ann's client with the order to Bob pending.
abbrev waiting_ann : Station
waiting_ann = record {
  client = record {
    name = "ann";
    registry = registry;
    accounts = [];
    pending_by_account = ("ann", "xxx") ∷ [];
    pending_transfers = ("xxx", to_bob) ∷ [];
    signed_transfer_orders = [];
    confirmation_orders = [];
  };
  file = some first_state;
}

abbrev certified : ConfirmationOrder
certified = certificate python (pos 9) to_bob three_votes quarters

to_bob-IsStamped : IsStamped to_bob
to_bob-IsStamped = record { id_fits = omega arith; time_set = λ h. cc }

to_bob_valid : validate_transfer python to_bob node_a.node ≡ true
unfolding validate_transfer verify_signature sign_payload canonical_json account_allows
to_bob_valid = refl

host_of_ann : account_host "ann" ≡ "ann"
unfolding account_host
host_of_ann = refl

handle_at_authority-votes_example :
    (s : WeightSnapshot) × (signed : SignedTransferOrder) × (w' : World) × (handle_at_authority
        python
        (pos 8)
        (to_payload python (transfer_order to_bob))
        node_a
      ≡ (ok (signed_transfer_order signed ∷ []), w'))
    × (destinations ("a" ∷ "b" ∷ "c" ∷ []) "a" (signed_transfer_order signed)
        ≡ (account_host "ann" ∷ []))
    × IsSound python node_a.node.registry s.epoch s
    × (verify_authority_vote python to_bob signed.authority_vote s ≡ true)
    × ((later : ℤ)
        → handle_at_client python later
            (to_payload python (signed_transfer_order signed))
            waiting_ann
          ≡ Client.on_payment_object python later (signed_transfer_order signed) waiting_ann)
handle_at_authority-votes_example =
    handle_at_authority-votes python to_bob to_bob-IsStamped waiting_ann refl ("a" ∷ "b" ∷ "c" ∷ [])
      (pos 8) node_a (account_of "ann" (pos 100)) (λ h. cc) node_a-IsReady to_bob_valid refl refl
      refl

node_a-KnowsNoOther :
    KnowsNoOther python to_bob (lookup_authority_order python node_a.node.accounts)
unfolding lookup_authority_order account_order
node_a-KnowsNoOther o h = absurd (cc)

waiting_ann-KnowsNoOther : KnowsNoOther python to_bob (lookup_client_order waiting_ann.client)
unfolding lookup_client_order
waiting_ann-KnowsNoOther o h = ground (arith, h)

certificate-arrives_example :
    IsNodup (destinations ("a" ∷ "b" ∷ "c" ∷ []) "ann" (confirmation_order certified))
    × ((dst : String)
        → contains dst (destinations ("a" ∷ "b" ∷ "c" ∷ []) "ann" (confirmation_order certified))
          ≡ not (dst == "ann")
            && (account_host "bob" == dst || contains dst ("a" ∷ "b" ∷ "c" ∷ [])))
    × (handle_at_authority python (pos 12) (to_payload python (confirmation_order certified)) node_a
        ≡ Authority.on_payment_object python (pos 12) (confirmation_order certified) node_a)
    × (handle_at_client python
          (pos 12)
          (to_payload python (confirmation_order certified))
          waiting_ann
        ≡ Client.on_payment_object python (pos 12) (confirmation_order certified) waiting_ann)
certificate-arrives_example =
    certificate-arrives python to_bob to_bob-IsStamped refl (pos 9) (λ h. cc) three_votes quarters
      ("a" ∷ "b" ∷ "c" ∷ []) "ann" (pos 12) node_a waiting_ann node_a-KnowsNoOther
      waiting_ann-KnowsNoOther
