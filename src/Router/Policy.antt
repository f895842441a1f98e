-- ===== src/Router/Policy.antt =====
-- The hooks of `DTNRouter` (dtn/router.py) that a routing policy overrides, as operations on the
-- policy's own state, and the metadata that comes with a bundle.
use meshpay.Base.{Bool, Option, some, String, ℤ, List, []}
use meshpay.Value.{obj, Fields, end, get}
use meshpay.Bundle.{Bundle, to_dict}
use meshpay.Store.{Store}

-- `select_bundles_for_peer` is given the ids the peer has, the peer, and a snapshot if there is one.
pub record Policy (S : Type 0) : Type 0 where
  pub bundle_to_wire : Bundle → String → S → Fields
  pub summary_metadata : ℤ → S → Fields × S
  pub observe_peer_summary : ℤ → String → Fields → S → S
  pub select_bundles_for_peer :
      ℤ → List String → String → Option (List Bundle) → S → Store → (List Bundle × S) × Store
  pub on_bundle_received : Bundle → String → Fields → Bool → S → S

-- The base class's own hooks.
unfoldable pub base_policy : {S : Type 0} → Policy S
base_policy = record {
  bundle_to_wire = λ b peer s. to_dict b;
  summary_metadata = λ now s. (end, s);
  observe_peer_summary = λ now peer summary s. s;
  select_bundles_for_peer = λ now known peer local s st. (([], s), st);
  on_bundle_received = λ b peer metadata stored s. s;
}

-- `received_bundle_metadata`
unfoldable pub received_bundle_metadata : Fields → Fields
received_bundle_metadata bundle_data = elim (get "_routing" bundle_data) [
  | some (obj meta) ↦ meta
  | _ ↦ end
]
