-- ===== src/Router/Discovery/Initiator.antt =====
-- Which of two nodes starts the exchange once each has heard the other's reply.
use Prim.Native.Nat.{Ordering, compare as compare_ℕ}
use Prim.Native.String.{then as and_then, compare}
use Prim.Native.String.compare
use Prim.Native.String as Str
use Prim.Native.Char.{code}
use meshpay.Base.{
  ℕ, ◌≡◌, ◌≢◌, refl, sym, ap, ◌∙◌, true, false, not, some, String, eq_iff, is_before, if◌then◌else◌,
  List, ◌∷◌, arith, Bool-cases, inl, inr, ◌⊎◌, Option,
}
use meshpay.Router.Attempts.{Config, Peer}
use meshpay.Router.Discovery.{
  Neighbours, Message, Action, start_exchange, on_peer, handle_discovery_message,
}

flip : Ordering → Ordering
flip Ordering.lt = Ordering.gt
flip Ordering.eq = Ordering.eq
flip Ordering.gt = Ordering.lt

flip-compare_ℕ : (m n : ℕ) → compare_ℕ m n ≡ flip (compare_ℕ n m)
unfolding flip
flip-compare_ℕ m n = ground arith

flip-then : (x y : Ordering) → and_then (flip x) (flip y) ≡ flip (and_then x y)
unfolding flip
flip-then Ordering.lt y = refl
flip-then Ordering.eq y = refl
flip-then Ordering.gt y = refl

flip-compare : (a b : String) → compare a b ≡ flip (compare b a)
unfolding flip
flip-compare Str.[] Str.[] = refl
flip-compare Str.[] (Str.◌∷◌ d t) = compare.nil-cons d t ∙ ap flip (sym (compare.cons-nil d t))
flip-compare (Str.◌∷◌ c s) Str.[] = compare.cons-nil c s ∙ ap flip (sym (compare.nil-cons c s))
flip-compare (Str.◌∷◌ c s) (Str.◌∷◌ d t) =
    compare.cons-cons c d s t
    ∙ ap (λ o. and_then o (compare s t)) (flip-compare_ℕ (code c) (code d))
    ∙ ap (and_then (flip (compare_ℕ (code d) (code c)))) (flip-compare s t)
    ∙ flip-then (compare_ℕ (code d) (code c)) (compare t s)
    ∙ ap flip (sym (compare.cons-cons d c t s))

is_before-one : (a b : String) → a ≢ b → is_before b a ≡ not (is_before a b)
unfolding flip
is_before-one a b differ = ground (arith, flip-compare a b, eq_iff a b, differ)

-- A unicast reply of the node, with its exchange port.
abbrev pub reply_of : Config → Option String → Message
reply_of c echoed = record {
  type = "peer";
  node = some c.node;
  exchange_port = some c.exchange_port;
  nonce = echoed;
}

abbrev pub peer_at : Config → String → Peer
peer_at c ip = record { peer_node = c.node; peer_ip = ip; peer_port = c.exchange_port }

abbrev pub hears : Config → Config → ℕ → String → Option String → Neighbours → List Action
hears c other now ip echoed s =
    (handle_discovery_message c now ip (reply_of other echoed) s).actions

actions-handle :
    (c other : Config) (now : ℕ) (ip : String) (echoed : Option String) (s : Neighbours)
    → c.is_mesh ≡ false
    → other.node ≢ ""
    → other.node ≢ c.node
    → hears c other now ip echoed s ≡ (
        if is_before c.node other.node
        then start_exchange (peer_at other ip) true ∷ s.actions
        else s.actions)
unfolding handle_discovery_message on_peer
actions-handle c other now ip echoed s adhoc named differ =
    ground (arith, adhoc, eq_iff other.node "", eq_iff other.node c.node, named, differ)

-- Of two ad hoc nodes with different names that have heard each other's reply, exactly one starts an
-- exchange with the other: the one whose name comes first.
pub handle_discovery_message-initiator :
    (a b : Config) (now later : ℕ) (ip_a ip_b : String) (echoed echoed' : Option String)
    (s t : Neighbours)
    → a.is_mesh ≡ false
    → b.is_mesh ≡ false
    → a.node ≢ ""
    → b.node ≢ ""
    → a.node ≢ b.node
    → ((is_before a.node b.node ≡ true)
        × (hears a b now ip_b echoed s ≡ start_exchange (peer_at b ip_b) true ∷ s.actions)
        × (hears b a later ip_a echoed' t ≡ t.actions))
      ⊎ ((is_before b.node a.node ≡ true)
          × (hears a b now ip_b echoed s ≡ s.actions)
          × (hears b a later ip_a echoed' t ≡ start_exchange (peer_at a ip_a) true ∷ t.actions))
handle_discovery_message-initiator a b now later ip_a ip_b echoed echoed' s t adhoc_a adhoc_b
      named_a named_b differ =
    let at_a = actions-handle a b now ip_b echoed s adhoc_a named_b (λ same. differ (sym same)) in
    let at_b = actions-handle b a later ip_a echoed' t adhoc_b named_a differ in
    let one = is_before-one a.node b.node differ in
    elim (Bool-cases (is_before a.node b.node)) [
      | inl first ↦ inl (first, at_a ∙ rw first refl, at_b ∙ rw (one ∙ ap not first) refl)
      | inr second ↦
          inr (one ∙ ap not second, at_a ∙ rw second refl, at_b ∙ rw (one ∙ ap not second) refl)
    ]
