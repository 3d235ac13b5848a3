-- ===== src/Exceptions/Handling.antt =====
-- backend/src/yitu/exceptions/service.py: a case is assigned, worked on and resolved. Each public
-- operation runs its inner `operation` under the idempotency arbiter.
pub mod Effects
use Prim.Native.String.{String}
use yitu.Base.{
  ℕ, Bool, true, false, ◌&&◌, ◌||◌, not, Option, none, some, List, [], ◌∷◌, ◌++◌, any_of, is_some,
  ◌==◌, opt_eq, if◌then◌else◌,
}
use yitu.Dispatch.{is_accepted, add_task, save_task}
use yitu.Exceptions.Cases.{
  type_text, case_status_text, action_name, save_case, lock_case, require_operations_admin,
  assert_can_manage, case_key_of, record_audit, owner_notice, append_owner_notification,
  case_has_active_hold, case_response,
}
use yitu.Exceptions.StateMachine
use yitu.Exceptions.StateMachine.{
  ExceptionType, ExceptionStatus, CaseAction, ResolutionCode, ExceptionPolicy, default_policy,
  reportable, resolution_is_executable, manual, opened, assigned, processing, waiting_for_customer,
  resolved, closed, assign, start_processing, wait_for_customer, resume_processing, resolve, close,
  other,
}
use yitu.Identity.{role_is}
use yitu.Platform.Audit.{audit_record}
use yitu.Platform.Errors.{
  exception_type_not_allowed, forbidden_exception_scope, invalid_responsible_station,
  invalid_case_assignee, resume_precondition_failed, recovery_action_not_implemented,
  task_not_reassignable,
}
use yitu.Platform.Idempotency.{execute}
use yitu.Platform.Json.{Key, lit, ident, ◌⊹◌, Object, str, number, flag}
use yitu.Platform.Outbox.{append}
use yitu.Shipments.Control.{lock_shipment, place_exception_hold, is_open}
use yitu.Shipments.Enums.{
  Role, customer, courier, station_operator, operations_admin, ShipmentStatus,
}
use yitu.Shipments.Transition.{lift}
use yitu.Sla.Breaches.{add_case}
use yitu.Store.Cases.{ExceptionCase, TaskReassignment}
use yitu.Store.Catalog.{User, Station}
use yitu.Store.Queries.{find_user, find_station, find_task}
use yitu.Store.Rows.{
  CurrentUser, Shipment, CourierTask, CourierTaskStatus, available, task_cancelled,
  IdempotencyResponse,
}
use yitu.Store.Session.{Action, new_id, modify, gets, raise, or_raise, raise_if, pure, ◌>>=◌, ◌>>◌}

-- Whether a user may be given a case of a station.
abbrev pub is_assignee : Option User → Station → Bool
is_assignee none station = false
is_assignee (some u) station =
    role_is u.user_role operations_admin
    || (role_is u.user_role station_operator && opt_eq u.home_station (some station.station_row))

unfoldable pub assign_operation : ℕ → ℕ → ℕ → Key → CurrentUser → Key → Action IdempotencyResponse
assign_operation case_id assignee_id station_id reason actor request_id = do
  require_operations_admin actor
  row ← lock_case case_id
  assignee ← gets (λ s. find_user assignee_id s.users)
  station ← or_raise (← gets (λ s. find_station station_id s.stations)) invalid_responsible_station
  raise_if (not (is_assignee assignee station)) invalid_case_assignee
  target ← lift (StateMachine.transition row.case_status assign)
  now ← gets (λ s. s.now)
  let next = record row {
    case_status = target;
    assigned_to = some assignee_id;
    responsible_station = some station_id;
    assigned_at = some now;
  }
  save_case next
  record_audit next actor "assign" row.case_status (some reason) request_id
  pure (case_response 200 next)

abbrev pub case_scope : String → ℕ → CurrentUser → Key
case_scope action case_id actor =
    lit "exception:" ⊹ lit action ⊹ lit ":" ⊹ ident case_id ⊹ lit ":" ⊹ ident actor.user_id

unfoldable pub assign_case :
    ℕ → ℕ → ℕ → Key → CurrentUser → Key → Key → ℕ → Action IdempotencyResponse
assign_case case_id assignee_id station_id reason actor key request_id request_hash =
    execute (case_scope "assign" case_id actor) key request_hash
      (assign_operation case_id assignee_id station_id reason actor request_id)

abbrev pub is_close : CaseAction → Bool
is_close close = true
is_close _ = false

abbrev pub closing_moment : ExceptionStatus → Option ℕ → ℕ → Option ℕ
closing_moment closed before now = some now
closing_moment _ before now = before

-- The case after an action.
abbrev pub moved_case : ExceptionCase → ExceptionStatus → ℕ → ExceptionCase
moved_case row target now = record row {
  case_status = target;
  case_closed_at = closing_moment target row.case_closed_at now;
}

abbrev notify_waiting : CaseAction → ExceptionCase → Action (Unit {0})
notify_waiting wait_for_customer row =
    append_owner_notification row "EXCEPTION_WAITING_FOR_CUSTOMER" "exception_waiting_for_customer"
notify_waiting _ row = pure tt

unfoldable pub action_operation :
    ℕ → CaseAction → CurrentUser → Option Key → Key → Action IdempotencyResponse
action_operation case_id action actor reason request_id = do
  row ← lock_case case_id
  assert_can_manage row actor
  held ← gets (λ s. case_has_active_hold row.case_id s.holds)
  raise_if (is_close action && held) resume_precondition_failed
  target ← lift (StateMachine.transition row.case_status action)
  now ← gets (λ s. s.now)
  save_case (moved_case row target now)
  record_audit (moved_case row target now) actor (action_name action) row.case_status reason
      request_id
  notify_waiting action (moved_case row target now)
  pure (case_response 200 (moved_case row target now))

unfoldable pub apply_action :
    ℕ → CaseAction → CurrentUser → Option Key → Key → Key → ℕ → Action IdempotencyResponse
apply_action case_id action actor reason key request_id request_hash =
    execute (case_scope (action_name action) case_id actor) key request_hash
      (action_operation case_id action actor reason request_id)

unfoldable pub resolve_operation :
    ℕ → ResolutionCode → Key → CurrentUser → Key → Action IdempotencyResponse
resolve_operation case_id code reason actor request_id = do
  row ← lock_case case_id
  assert_can_manage row actor
  raise_if (not (resolution_is_executable code)) recovery_action_not_implemented
  target ← lift (StateMachine.transition row.case_status resolve)
  now ← gets (λ s. s.now)
  let next = record row {
    case_status = target;
    resolution_code = some code;
    resolution_reason = some reason;
    resolved_at = some now;
  }
  save_case next
  record_audit next actor "resolve" row.case_status (some reason) request_id
  append_owner_notification next "EXCEPTION_RESOLVED" "exception_resolved"
  pure (case_response 200 next)

unfoldable pub resolve_case :
    ℕ → ResolutionCode → Key → CurrentUser → Key → Key → ℕ → Action IdempotencyResponse
resolve_case case_id code reason actor key request_id request_hash =
    execute (case_scope "resolve" case_id actor) key request_hash
      (resolve_operation case_id code reason actor request_id)
