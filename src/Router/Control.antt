-- ===== src/Router/Control.antt =====
-- `_handle_control_socket_conn` and `inject_bundle` (dtn/router.py), from the request that is read to
-- the answer that is written. The clock is read once per request, and `repr` of an exception is an
-- argument.
pub mod Inject
use meshpay.Base.{
  ℕ, suc, Bool, true, false, not, ◌&&◌, Option, none, some, String, ℤ, ◌==◌, if◌then◌else◌, List,
  [], ◌∷◌, ◌++◌, length,
}
use meshpay.Value.{
  Value, arr, obj, text, Items, nil, cons, Fields, field, end, get, get_default, item, Error,
  Result, ok, err, ◌>>=◌, as_fields, as_items,
}
use meshpay.Runtime.{Runtime}
use meshpay.Transaction.Payload.{text_equals}
use meshpay.Bundle.{Bundle, from_dict, to_dict}
use meshpay.Router.Remember.{Daemon, record_event, control_socket_error, remember_control_bundle}

-- The messages that answer a request.
pub data Answer : Type 0 where
  inject_ack : Bool → String → Answer  -- `stored`, `bundle_id`
  inject_batch_ack : ℕ → ℕ → List String → Answer  -- `stored`, `received`, `bundle_ids`
  failed : String → Answer  -- `error`

module _ (rt : Runtime) (now : ℤ) where
  -- One bundle of a request; what raises leaves the daemon as it was.
  unfoldable pub inject_one : Value → Daemon → Result (Bool × String × Daemon)
  inject_one bundle_data d = do
    fields ← as_fields bundle_data
    b ← from_dict rt fields
    (stored, d') ← remember_control_bundle rt now b d
    ok (stored, b.bundle_id, d')

  -- What comes after one bundle; an exception ends the request.
  abbrev pub and_then :
      (Bool → String → Daemon → Result Answer × Daemon)
      → Result (Bool × String × Daemon)
      → Daemon
      → Result Answer × Daemon
  and_then next (ok (stored, bundle_id, d')) d = next stored bundle_id d'
  and_then next (err e) d = (err e, d)

  -- The loop over a batch, with the count and the ids so far. What is stored before an exception
  -- stays stored.
  unfoldable pub inject_all : Items → ℕ → List String → Daemon → Result Answer × Daemon
  inject_all nil stored_count bundle_ids d =
      (ok (inject_batch_ack stored_count (length bundle_ids) bundle_ids), d)
  inject_all (cons bundle_data rest) stored_count bundle_ids d =
      and_then
        (λ stored bundle_id d'.
          inject_all rest (if stored then suc stored_count else stored_count)
            (bundle_ids ++ (bundle_id ∷ [])) d')
        (inject_one bundle_data d) d

  abbrev pub all_injected : Result Items → Daemon → Result Answer × Daemon
  all_injected (ok items) d = inject_all items 0 [] d
  all_injected (err e) d = (err e, d)

  -- The `try` block of `_handle_control_socket_conn`.
  unfoldable pub answer_request : Fields → Daemon → Result Answer × Daemon
  answer_request request d =
      if text_equals "inject" (get "type" request)
      then and_then (λ stored bundle_id d'. (ok (inject_ack stored bundle_id), d'))
          (item "bundle" request >>= λ bundle_data. inject_one bundle_data d) d
      else if text_equals "inject_batch" (get "type" request)
      then all_injected (as_items (get_default "bundles" (arr nil) request)) d
      else (ok (failed "unsupported control message"), d)

  abbrev pub replied : (Error → String) → Result Answer × Daemon → Option Answer × Daemon
  replied repr (ok answer, d) = (some answer, d)
  replied repr (err e, d) = (some (failed (repr e)), record_event (control_socket_error e) d)

  -- `_handle_control_socket_conn`; an empty request gets no answer.
  unfoldable pub handle_control_request :
      (Error → String) → Fields → Daemon → Option Answer × Daemon
  handle_control_request repr end d = (none, d)
  handle_control_request repr (field k v fs) d = replied repr (answer_request (field k v fs) d)

-- The request of `inject_bundle`.
unfoldable pub inject_request : Bundle → Fields
inject_request b = field "type" (text "inject") (field "bundle" (obj (to_dict b)) end)

-- Whether `inject_bundle` says that the bundle is injected, or exits with an error, by the answer. An
-- `inject_ack` has no `error`.
unfoldable pub reports_injected : Option Answer → Bool
reports_injected none = false
reports_injected (some (inject_ack stored bundle_id)) = true
reports_injected (some (inject_batch_ack stored received bundle_ids)) = false
reports_injected (some (failed error)) = false
