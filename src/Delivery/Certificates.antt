-- ===== src/Delivery/Certificates.antt =====
-- A certificate on its way from the client that made it.
use meshpay.Base.{
  ◌≡◌, ◌≢◌, refl, ap, sym, ◌∙◌, Bool, not, ◌&&◌, ◌||◌, Option, none, some, String, ◌==◌, eq_iff, ℤ,
  pos, List, [], ◌∷◌, filter, unique, contains, IsNodup, unique-IsNodup, All-filter, arith,
  Bool-cases, inl, inr,
}
use meshpay.Value.{ok}
use meshpay.Runtime.{Runtime}
use meshpay.Transaction.Transfer.{TransferOrder, default_ttl}
use meshpay.Transaction.Transfer.RoundTrip.{IsStamped, stamped_lem}
use meshpay.Transaction.Vote.{AuthorityVote}
use meshpay.Transaction.Signed.{OrderLookup}
use meshpay.Transaction.Confirmation.{ConfirmationOrder}
use meshpay.Transaction.Confirmation.RoundTrip.{IsStampedConfirmation, received}
use meshpay.Adapter.{confirmation_order, to_payload, from_payload}
use meshpay.Adapter.RoundTrip.{from_payload-to_payload}
use meshpay.Quorum.{WeightSnapshot}
use meshpay.Authority
use meshpay.Authority.Monad.{World}
use meshpay.Client
use meshpay.Client.{certificate}
use meshpay.Client.Monad.{Station}
use meshpay.Client.Accounts.{account_host}
use meshpay.Delivery.{
  handle_at_authority, handle_at_client, hand_over, lookup_client_order, lookup_authority_order,
  destinations,
}

contains-unique : (x : String) (xs : List String) → contains x (unique xs) ≡ contains x xs
contains-unique x [] = refl
contains-unique x (y ∷ ys) = ground (arith, eq_iff y x, contains-unique x ys, contains-unique y ys)

contains-filter :
    (p : String → Bool) (x : String) (xs : List String)
    → contains x (filter p xs) ≡ p x && contains x xs
contains-filter p x [] = ground arith
contains-filter p x (y ∷ ys) = elim (Bool-cases (y == x)) [
  | inl same ↦
      let e : y ≡ x = ground (arith, same, eq_iff y x) in
      ground (arith, same, ap p e, contains-filter p x ys)
  | inr other ↦ ground (arith, other, contains-filter p x ys)
]

filter-IsNodup : (p : String → Bool) (xs : List String) → IsNodup xs → IsNodup (filter p xs)
filter-IsNodup p [] d = tt
filter-IsNodup p (x ∷ xs) (new, d) = elim (Bool-cases (p x)) [
  | inl kept ↦ rw kept (All-filter (λ y. y ≢ x) p xs new, filter-IsNodup p xs d)
  | inr dropped ↦ rw dropped (filter-IsNodup p xs d)
]

-- Every order that the receiver knows under the id is this one.
abbrev pub KnowsNoOther : Runtime → TransferOrder → OrderLookup → Type 0
KnowsNoOther rt order find_order =
    (o : TransferOrder) → find_order (rt.uuid_str order.order_id) ≡ some o → o ≡ order

module _ (rt : Runtime) (order : TransferOrder) (stamp : IsStamped order)
    (ttl : order.ttl ≡ default_ttl) (now : ℤ) (set : now ≢ pos 0) (votes : List AuthorityVote)
    (s : WeightSnapshot) where
  abbrev made : ConfirmationOrder
  made = certificate rt now order votes s

  made-IsStamped : IsStampedConfirmation made
  unfolding certificate
  made-IsStamped = record {
    id_fits = stamp.id_fits;
    time_set = λ h. set (sym (stamped_lem now now set) ∙ h);
    order = stamp;
  }

  made-received :
      (found : Option TransferOrder)
      → ((o : TransferOrder) → found ≡ some o → o ≡ order)
      → received made found ≡ made
  unfolding certificate
  made-received none same =
      ap (λ t. record made { transfer_order = record order { ttl = t } }) (sym ttl)
  made-received (some o) same = ap (λ x. record made { transfer_order = x }) (same o refl)

  made-decoded :
      (find_order : OrderLookup) (later : ℤ)
      → KnowsNoOther rt order find_order
      → from_payload rt find_order later (to_payload rt (confirmation_order made))
        ≡ ok (confirmation_order made)
  unfolding certificate
  made-decoded find_order later same =
      from_payload-to_payload rt find_order later (confirmation_order made) made-IsStamped
      ∙ ap (λ c. ok (confirmation_order c))
          (made-received (find_order (rt.uuid_str order.order_id)) same)

  -- The certificate that a client makes of an order with the default time to live goes to the
  -- recipient's host and to every authority, once each, and not to the node that sends it. An authority
  -- or a client that it reaches, whenever that is, handles just this certificate, provided that every
  -- order that it knows under the id is this one.
  pub certificate-arrives :
      (authorities : List String) (src : String) (later : ℤ) (w : World) (z : Station)
      → KnowsNoOther rt order (lookup_authority_order rt w.node.accounts)
      → KnowsNoOther rt order (lookup_client_order z.client)
      → IsNodup (destinations authorities src (confirmation_order made))
        × ((dst : String)
            → contains dst (destinations authorities src (confirmation_order made))
              ≡ not (dst == src)
                && (account_host order.recipient == dst || contains dst authorities))
        × (handle_at_authority rt later (to_payload rt (confirmation_order made)) w
            ≡ Authority.on_payment_object rt later (confirmation_order made) w)
        × (handle_at_client rt later (to_payload rt (confirmation_order made)) z
            ≡ Client.on_payment_object rt later (confirmation_order made) z)
  unfolding handle_at_authority handle_at_client destinations certificate
  certificate-arrives authorities src later w z authority_knows client_knows =
      let reached = account_host order.recipient ∷ authorities in
      (
        filter-IsNodup (λ dst. not (dst == src)) (unique reached) (unique-IsNodup reached),
        λ dst.
            contains-filter (λ x. not (x == src)) dst (unique reached)
            ∙ ap (λ b. not (dst == src) && b) (contains-unique dst reached),
        ap (λ r. hand_over rt (λ object. Authority.on_payment_object rt later object) r w)
            (made-decoded (lookup_authority_order rt w.node.accounts) later authority_knows),
        ap (λ r. hand_over rt (λ object. Client.on_payment_object rt later object) r z)
            (made-decoded (lookup_client_order z.client) later client_knows),
      )
