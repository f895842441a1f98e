-- ===== src/Examples.antt =====
-- Test data and tests: four authorities, two clients, and a stand-in for Python's library.
pub mod Authorities
pub mod Ready
pub mod Votes
pub mod Wire
pub mod Clients
pub mod Bundles
pub mod Daemons
pub mod Deliveries
pub mod Neighbours
pub mod Encounters
pub mod Hosting
pub mod Attempts
use Prim.Native.String.{count, ◌++◌}
use text.Mathlib.TextLemmas.{length-append}
use meshpay.Base.{
  ℕ, zero, suc, ◌+◌, ◌<◌, ◌≡◌, refl, ap, ◌∙◌, ◌≢◌, Option, none, some, String, ℤ, pos, List, [],
  ◌∷◌, Dict, arith,
}
use meshpay.Value.{Value}
use meshpay.Runtime.{Runtime, uuid_limit}
use meshpay.Transaction.Status.{TransactionStatus}
use meshpay.Transaction.Transfer.{TransferOrder}
use meshpay.Transaction.Vote.{AuthorityVote}
use meshpay.Transaction.Confirmation.{ConfirmationOrder}
use meshpay.Quorum.{WeightSnapshot}
use meshpay.Registry.{Registry, RegistryState}
use meshpay.Account.{Account}
use meshpay.Authority.Monad.{Authority, World}

-- A UUID is written as that many letters.
abbrev pub unary : ℕ → String
unary zero = ""
unary (suc n) = "x" ++ unary n

pub count-unary : (n : ℕ) → count (unary n) ≡ n
count-unary zero = refl
count-unary (suc n) = omega (arith, length-append "x" (unary n), count-unary n)

pub digest_lem : (s : String) → "#" ++ s ≢ ""
digest_lem s h = absurd (omega (arith, length-append "#" s, ap count h))

abbrev pub python : Runtime
python = record {
  sha256 = λ s. "#" ++ s;
  dumps = λ _. "{}";
  int_of_text = λ _. none;
  real_of_text = λ _. none;
  show = λ _. "?";
  uuid_str = unary;
  uuid_hex = unary;
  uuid_of = λ s. some (count s);
  uuid_of-str = λ u _. ap some (count-unary u);
  uuid_of-hex = λ u _. ap some (count-unary u);
  digest_nonempty = digest_lem;
}

abbrev pub four : List String
four = "a" ∷ "b" ∷ "c" ∷ "d" ∷ []

abbrev pub quarters : WeightSnapshot
quarters = record {
  epoch = 0;
  committee = four;
  committee_digest = "#a,b,c,d";
  weights = ("a", 250_000) ∷ ("b", 250_000) ∷ ("c", 250_000) ∷ ("d", 250_000) ∷ [];
  total_weight_units = 1_000_000;
}

abbrev pub registry : Registry
registry = record { committee = four; epoch_size = 2; max_power_share = 300_000 }

abbrev pub no_counts : Dict ℕ
no_counts = ("a", 0) ∷ ("b", 0) ∷ ("c", 0) ∷ ("d", 0) ∷ []

abbrev pub first_state : RegistryState
first_state = record {
  version = 1;
  committee = four;
  committee_digest = "#a,b,c,d";
  epoch_size = 2;
  max_power_share = 300_000;
  current_epoch = 0;
  tx_counts = no_counts;
  pending_rewards = no_counts;
  finalizations_in_epoch = 0;
  finalized_order_ids = [];
  snapshots = (0, quarters) ∷ [];
}

abbrev pub account_of : String → ℤ → Account
account_of address balance = record {
  address = address;
  balance = balance;
  sequence_number = pos 0;
  last_update = pos 0;
  pending_confirmation = none;
  confirmed_transfers = [];
}

abbrev pub node_a : World
node_a = record {
  node = record {
    name = "a";
    registry = registry;
    accounts = ("ann", account_of "ann" (pos 100)) ∷ ("bob", account_of "bob" (pos 5)) ∷ [];
    tx_count = 0;
    current_weight = 250_000;
  };
  file = some first_state;
}

abbrev pub order_to : ℕ → String → TransferOrder
order_to id recipient = record {
  order_id = id;
  sender = "ann";
  recipient = recipient;
  amount = pos 30;
  sequence_number = pos 1;
  timestamp = pos 7;
  signature = some "#ann:{}";
  epoch = pos 0;
  ttl = pos 30_000_000;
}

abbrev pub vote_of : String → AuthorityVote
vote_of name = record {
  authority = name;
  signature = "#" ++ (name ++ ":{}");
  epoch = pos 0;
  weight_units = pos 250_000;
  total_weight_units = pos 1_000_000;
  committee_digest = "#a,b,c,d";
}

abbrev pub to_bob : TransferOrder
to_bob = order_to 3 "bob"

abbrev pub to_eve : TransferOrder
to_eve = order_to 4 "eve"

abbrev pub three_votes : List AuthorityVote
three_votes = vote_of "a" ∷ vote_of "b" ∷ vote_of "c" ∷ []

abbrev pub other_votes : List AuthorityVote
other_votes = vote_of "b" ∷ vote_of "c" ∷ vote_of "d" ∷ []

abbrev pub confirmation_of : TransferOrder → List AuthorityVote → ConfirmationOrder
confirmation_of order votes = record {
  order_id = order.order_id;
  transfer_order = order;
  authority_votes = votes;
  timestamp = pos 8;
  quorum_epoch = pos 0;
  total_weight_units = pos 1_000_000;
  committee_digest = "#a,b,c,d";
  status = TransactionStatus.pending;
}
