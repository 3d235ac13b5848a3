-- ===== src/Exceptions/Opening.antt =====
-- backend/src/yitu/exceptions/service.py, `open_case`: a case is reported by hand, under the
-- idempotency arbiter.
pub mod Holds
use Prim.Native.String.{String}
use yitu.Base.{
  ℕ, Bool, true, false, ◌&&◌, ◌||◌, not, Option, none, some, List, [], ◌∷◌, ◌++◌, any_of, is_some,
  ◌==◌, opt_eq, if◌then◌else◌,
}
use yitu.Dispatch.{is_accepted, add_task, save_task}
use yitu.Exceptions.Cases.{
  type_text, case_status_text, action_name, save_case, lock_case, require_operations_admin,
  assert_can_manage, case_key_of, record_audit, owner_notice, append_owner_notification,
  case_has_active_hold, case_response,
}
use yitu.Exceptions.StateMachine
use yitu.Exceptions.StateMachine.{
  ExceptionType, ExceptionStatus, CaseAction, ResolutionCode, ExceptionPolicy, default_policy,
  reportable, resolution_is_executable, manual, opened, assigned, processing, waiting_for_customer,
  resolved, closed, assign, start_processing, wait_for_customer, resume_processing, resolve, close,
  other,
}
use yitu.Identity.{role_is}
use yitu.Platform.Audit.{audit_record}
use yitu.Platform.Errors.{
  exception_type_not_allowed, forbidden_exception_scope, invalid_responsible_station,
  invalid_case_assignee, resume_precondition_failed, recovery_action_not_implemented,
  task_not_reassignable,
}
use yitu.Platform.Idempotency.{execute}
use yitu.Platform.Json.{Key, lit, ident, ◌⊹◌, Object, str, number, flag}
use yitu.Platform.Outbox.{append}
use yitu.Shipments.Control.{lock_shipment, place_exception_hold, is_open}
use yitu.Shipments.Enums.{
  Role, customer, courier, station_operator, operations_admin, ShipmentStatus,
}
use yitu.Shipments.Transition.{lift}
use yitu.Sla.Breaches.{add_case}
use yitu.Store.Cases.{ExceptionCase, TaskReassignment}
use yitu.Store.Catalog.{User, Station}
use yitu.Store.Queries.{find_user, find_station, find_task}
use yitu.Store.Rows.{
  CurrentUser, Shipment, CourierTask, CourierTaskStatus, available, task_cancelled,
  IdempotencyResponse,
}
use yitu.Store.Session.{Action, new_id, modify, gets, raise, or_raise, raise_if, pure, ◌>>=◌, ◌>>◌}

abbrev pub has_accepted_task : ℕ → ℕ → List CourierTask → Bool
has_accepted_task shipment_id actor_id = any_of λ t.
    (t.task_shipment == shipment_id)
    && (opt_eq t.assignee_id (some actor_id) && is_accepted t.task_status)

abbrev pub has_station_task : ℕ → ℕ → List CourierTask → Bool
has_station_task shipment_id station_id =
    any_of (λ t. (t.task_shipment == shipment_id) && (t.station_id == station_id))

-- Whether a station lies at an end of the shipment or has a task of it.
abbrev pub is_station_of : Option ℕ → Shipment → List CourierTask → Bool
is_station_of none shipment tasks = false
is_station_of (some station_id) shipment tasks =
    (opt_eq shipment.origin_station_id (some station_id)
      || opt_eq shipment.destination_station_id (some station_id))
    || has_station_task shipment.id station_id tasks

-- Whether the actor sees the shipment of a report.
unfoldable pub in_report_scope : Role → Shipment → CurrentUser → List CourierTask → Bool
in_report_scope customer shipment actor tasks = shipment.owner_id == actor.user_id
in_report_scope courier shipment actor tasks = has_accepted_task shipment.id actor.user_id tasks
in_report_scope station_operator shipment actor tasks =
    is_station_of actor.user_station shipment tasks
in_report_scope operations_admin shipment actor tasks = true

-- `_assert_manual_report_allowed`
unfoldable pub assert_manual_report_allowed :
    ExceptionType → Shipment → CurrentUser → Action (Unit {0})
assert_manual_report_allowed case_type shipment actor = do
  raise_if (not (reportable actor.role case_type)) exception_type_not_allowed
  allowed ← gets (λ s. in_report_scope actor.role shipment actor s.tasks)
  raise_if (not allowed) forbidden_exception_scope

abbrev pub opened_case :
    ℕ → Shipment → ExceptionType → Key → Object → CurrentUser → Key → Key → ℕ → ExceptionCase
opened_case case_id shipment case_type description evidence actor key request_id now = record {
  case_id = case_id;
  case_shipment = shipment.id;
  case_type = case_type;
  case_severity = (default_policy case_type).severity;
  case_status = opened;
  case_source = manual;
  case_source_id = none;
  description = description;
  evidence_summary = evidence;
  case_blocks = (default_policy case_type).blocks_fulfillment;
  frozen_shipment_status =
      if (default_policy case_type).blocks_fulfillment then some shipment.status else none;
  reported_by = some actor.user_id;
  assigned_to = none;
  responsible_station = none;
  resolution_code = none;
  resolution_reason = none;
  opened_at = now;
  assigned_at = none;
  resolved_at = none;
  case_closed_at = none;
  case_key = key;
  case_request = request_id;
}

abbrev pub open_summary : ExceptionCase → Object
open_summary row =
    ("status", str (lit (case_status_text opened)))
    ∷ ("case_type", str (lit (type_text row.case_type)))
    ∷ ("blocks_fulfillment", flag row.case_blocks)
    ∷ []

-- A case that blocks places its hold.
unfoldable pub hold_if_blocking : Bool → ExceptionCase → CurrentUser → Action (Unit {0})
hold_if_blocking false row actor = pure tt
hold_if_blocking true row actor = do
  place_exception_hold row.case_shipment "EXCEPTION_CASE" row.case_id row.description actor
      (lit "hold:" ⊹ ident row.case_id ⊹ lit ":open")
  pure tt

-- What a report writes, once its guards have passed.
unfoldable pub write_case :
    Shipment → ExceptionType → Key → Object → CurrentUser → Key → Key → Action IdempotencyResponse
write_case shipment case_type description evidence actor key request_id = do
  case_id ← new_id
  now ← gets (λ s. s.now)
  let row = opened_case case_id shipment case_type description evidence actor key request_id now
  add_case row
  hold_if_blocking row.case_blocks row actor
  audit_record (ident actor.user_id) (lit "exception.open") (case_key_of case_id) none
      (some (open_summary row)) (some description) request_id
  append "notification.requested" (case_key_of case_id) (owner_notice shipment "EXCEPTION_OPENED")
      (lit "notification:exception:" ⊹ ident case_id ⊹ lit ":opened")
  pure (case_response 201 row)

unfoldable pub open_operation :
    ℕ → ExceptionType → Key → Object → CurrentUser → Key → Key → Action IdempotencyResponse
open_operation shipment_id case_type description evidence actor key request_id = do
  shipment ← lock_shipment shipment_id
  assert_manual_report_allowed case_type shipment actor
  write_case shipment case_type description evidence actor key request_id

unfoldable pub open_case :
    ℕ → ExceptionType → Key → Object → CurrentUser → Key → Key → ℕ → Action IdempotencyResponse
open_case shipment_id case_type description evidence actor key request_id request_hash =
    execute (lit "exception:open:" ⊹ ident actor.user_id) key request_hash
      (open_operation shipment_id case_type description evidence actor key request_id)
