-- ===== src/Exceptions/Cases.antt =====
-- What the operations of backend/src/yitu/exceptions/service.py share: the locked case, the guards
-- on the actor, the audit entry, the notice to the owner and the view.
use Prim.Native.String.{String}
use package.text.Mathlib.Text.{◌==◌ as str_eq}
use yitu.Base.{
  ℕ, Bool, ◌&&◌, ◌||◌, not, Option, none, some, List, [], ◌∷◌, any_of, is_some, ◌==◌, opt_eq,
}
use yitu.Exceptions.StateMachine.{
  ExceptionType, ExceptionSeverity, ExceptionStatus, CaseAction, pickup_failed, address_error,
  recipient_unreachable, refused, damage, weight_mismatch, station_delay, suspected_loss,
  waiting_for_supplement, low, medium, high, critical, opened, assigned, processing,
  waiting_for_customer, resolved, closed, assign, start_processing, wait_for_customer,
  resume_processing, resolve, close, other,
}
use yitu.Identity.{role_is}
use yitu.Payments.{optional_id}
use yitu.Platform.Audit.{audit_record}
use yitu.Platform.Errors.{exception_case_not_found, forbidden_exception_action}
use yitu.Platform.Json.{Key, lit, ident, ◌⊹◌, Object, Value, str, number, flag, null, fields}
use yitu.Platform.Outbox.{append}
use yitu.Shipments.Control.{lock_shipment}
use yitu.Shipments.Enums.{ShipmentStatus, operations_admin, station_operator}
use yitu.Shipments.Transition.{status_text}
use yitu.Store.Cases.{ExceptionCase}
use yitu.Store.Queries.{find_case, put_case}
use yitu.Store.Rows.{CurrentUser, Shipment, ShipmentHold, IdempotencyResponse}
use yitu.Store.Session.{Action, modify, gets, or_raise, raise_if, pure, ◌>>=◌, ◌>>◌}

abbrev pub type_text : ExceptionType → String
type_text pickup_failed = "PICKUP_FAILED"
type_text address_error = "ADDRESS_ERROR"
type_text recipient_unreachable = "RECIPIENT_UNREACHABLE"
type_text refused = "REFUSED"
type_text damage = "DAMAGE"
type_text weight_mismatch = "WEIGHT_MISMATCH"
type_text station_delay = "STATION_DELAY"
type_text suspected_loss = "SUSPECTED_LOSS"
type_text waiting_for_supplement = "WAITING_FOR_SUPPLEMENT"

abbrev pub severity_text : ExceptionSeverity → String
severity_text low = "LOW"
severity_text medium = "MEDIUM"
severity_text high = "HIGH"
severity_text critical = "CRITICAL"

abbrev pub case_status_text : ExceptionStatus → String
case_status_text opened = "OPEN"
case_status_text assigned = "ASSIGNED"
case_status_text processing = "PROCESSING"
case_status_text waiting_for_customer = "WAITING_FOR_CUSTOMER"
case_status_text resolved = "RESOLVED"
case_status_text closed = "CLOSED"

-- An action without a name of its own is refused before anything is kept under its text.
abbrev pub action_name : CaseAction → String
action_name assign = "assign"
action_name start_processing = "start_processing"
action_name wait_for_customer = "wait_for_customer"
action_name resume_processing = "resume_processing"
action_name resolve = "resolve"
action_name close = "close"
action_name other = "other"

abbrev optional_moment : Option ℕ → Value
optional_moment none = null
optional_moment (some t) = number t

abbrev optional_status : Option ShipmentStatus → Value
optional_status none = null
optional_status (some s) = str (lit (status_text s))

-- `ExceptionView`, less the evidence, which stays as the row has it.
abbrev pub case_view : ExceptionCase → Object
case_view c =
    ("id", str (ident c.case_id))
    ∷ ("shipment_id", str (ident c.case_shipment))
    ∷ ("case_type", str (lit (type_text c.case_type)))
    ∷ ("severity", str (lit (severity_text c.case_severity)))
    ∷ ("status", str (lit (case_status_text c.case_status)))
    ∷ ("description", str c.description)
    ∷ ("blocks_fulfillment", flag c.case_blocks)
    ∷ ("frozen_shipment_status", optional_status c.frozen_shipment_status)
    ∷ ("reported_by", optional_id c.reported_by)
    ∷ ("assigned_to", optional_id c.assigned_to)
    ∷ ("responsible_station_id", optional_id c.responsible_station)
    ∷ ("opened_at", number c.opened_at)
    ∷ ("assigned_at", optional_moment c.assigned_at)
    ∷ ("resolved_at", optional_moment c.resolved_at)
    ∷ ("closed_at", optional_moment c.case_closed_at)
    ∷ []

abbrev pub save_case : ExceptionCase → Action (Unit {0})
save_case row = modify (λ s. record s { cases = put_case row s.cases })

-- `_lock_case`
unfoldable pub lock_case : ℕ → Action ExceptionCase
lock_case case_id = do
  row ← or_raise (← gets (λ s. find_case case_id s.cases)) exception_case_not_found
  lock_shipment row.case_shipment
  pure row

-- `_require_operations_admin`
abbrev pub require_operations_admin : CurrentUser → Action (Unit {0})
require_operations_admin actor =
    raise_if (not (role_is actor.role operations_admin)) forbidden_exception_action

abbrev is_free_for : ExceptionCase → CurrentUser → Bool
is_free_for row actor = not (is_some row.assigned_to) || opt_eq row.assigned_to (some actor.user_id)

-- Whether the actor may manage the case.
abbrev pub can_manage : ExceptionCase → CurrentUser → Bool
can_manage row actor =
    role_is actor.role operations_admin
    || (role_is actor.role station_operator
        && (opt_eq row.responsible_station actor.user_station && is_free_for row actor))

-- `_assert_can_manage`
abbrev pub assert_can_manage : ExceptionCase → CurrentUser → Action (Unit {0})
assert_can_manage row actor = raise_if (not (can_manage row actor)) forbidden_exception_action

abbrev pub case_key_of : ℕ → Key
case_key_of case_id = lit "exception:" ⊹ ident case_id

abbrev pub case_summary : ExceptionStatus → Object
case_summary status = ("status", str (lit (case_status_text status))) ∷ []

-- `_record_audit`: the case as the operation leaves it, and its status before.
unfoldable pub record_audit :
    ExceptionCase → CurrentUser → String → ExceptionStatus → Option Key → Key → Action (Unit {0})
record_audit row actor action previous reason request_id = do
  audit_record (ident actor.user_id) (lit "exception." ⊹ lit action) (case_key_of row.case_id)
      (some (case_summary previous)) (some (case_summary row.case_status)) reason request_id
  pure tt

-- A notice of a template about a shipment.
abbrev pub owner_notice : Shipment → String → Object
owner_notice shipment template_code =
    ("recipient_id", str (ident shipment.owner_id))
    ∷ ("template_code", str (lit template_code))
    ∷ ("template_data", fields (("shipment_no", shipment.shipment_no) ∷ []))
    ∷ []

-- `_append_owner_notification`, with the template's code in small letters as a further argument.
unfoldable pub append_owner_notification : ExceptionCase → String → String → Action (Unit {0})
append_owner_notification row template_code lower = do
  shipment ← lock_shipment row.case_shipment
  append "notification.requested" (case_key_of row.case_id ⊹ lit ":" ⊹ lit lower)
      (owner_notice shipment template_code)
      (lit "notification:exception:" ⊹ ident row.case_id ⊹ lit ":" ⊹ lit lower)
  pure tt

-- `_case_has_active_hold`
abbrev pub is_hold_of_case : ℕ → ShipmentHold → Bool
is_hold_of_case case_id h =
    str_eq h.source_type "EXCEPTION_CASE" && ((h.source_id == case_id) && h.active)

unfoldable pub case_has_active_hold : ℕ → List ShipmentHold → Bool
case_has_active_hold case_id = any_of (is_hold_of_case case_id)

-- The response of an operation on a case.
abbrev pub case_response : ℕ → ExceptionCase → IdempotencyResponse
case_response status row = record { status_code = status; body = case_view row }
