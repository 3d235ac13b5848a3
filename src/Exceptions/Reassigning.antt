-- ===== src/Exceptions/Reassigning.antt =====
-- backend/src/yitu/exceptions/service.py, `reassign_task`: the courier task of a case is replaced.
pub mod Tasks
use Prim.Native.String.{String}
use yitu.Base.{
  ℕ, Bool, true, false, ◌&&◌, ◌||◌, not, Option, none, some, List, [], ◌∷◌, ◌++◌, any_of, is_some,
  ◌==◌, opt_eq, if◌then◌else◌,
}
use yitu.Dispatch.{is_accepted, add_task, save_task}
use yitu.Exceptions.Cases.{
  type_text, case_status_text, action_name, save_case, lock_case, require_operations_admin,
  assert_can_manage, case_key_of, record_audit, owner_notice, append_owner_notification,
  case_has_active_hold, case_response,
}
use yitu.Exceptions.StateMachine
use yitu.Exceptions.StateMachine.{
  ExceptionType, ExceptionStatus, CaseAction, ResolutionCode, ExceptionPolicy, default_policy,
  reportable, resolution_is_executable, manual, opened, assigned, processing, waiting_for_customer,
  resolved, closed, assign, start_processing, wait_for_customer, resume_processing, resolve, close,
  other,
}
use yitu.Identity.{role_is}
use yitu.Platform.Audit.{audit_record}
use yitu.Platform.Errors.{
  exception_type_not_allowed, forbidden_exception_scope, invalid_responsible_station,
  invalid_case_assignee, resume_precondition_failed, recovery_action_not_implemented,
  task_not_reassignable,
}
use yitu.Platform.Idempotency.{execute}
use yitu.Platform.Json.{Key, lit, ident, ◌⊹◌, Object, str, number, flag}
use yitu.Platform.Outbox.{append}
use yitu.Shipments.Control.{lock_shipment, place_exception_hold, is_open}
use yitu.Shipments.Enums.{
  Role, customer, courier, station_operator, operations_admin, ShipmentStatus,
}
use yitu.Shipments.Transition.{lift}
use yitu.Sla.Breaches.{add_case}
use yitu.Store.Cases.{ExceptionCase, TaskReassignment}
use yitu.Store.Catalog.{User, Station}
use yitu.Store.Queries.{find_user, find_station, find_task}
use yitu.Store.Rows.{
  CurrentUser, Shipment, CourierTask, CourierTaskStatus, available, task_cancelled,
  IdempotencyResponse,
}
use yitu.Store.Session.{Action, new_id, modify, gets, raise, or_raise, raise_if, pure, ◌>>=◌, ◌>>◌}

abbrev pub is_being_handled : ExceptionStatus → Bool
is_being_handled assigned = true
is_being_handled processing = true
is_being_handled _ = false

-- The task that a case may replace: one of its shipment, still open.
abbrev pub is_replaceable : ExceptionCase → CourierTask → Bool
is_replaceable row t = (t.task_shipment == row.case_shipment) && is_open t.task_status

abbrev pub replaced : CourierTask → Key → ℕ → ℕ → CourierTask
replaced t reason now by = record t {
  task_status = task_cancelled;
  closed_reason = some reason;
  closed_at = some now;
  replaced_by_task_id = some by;
}

abbrev add_reassignment : TaskReassignment → Action (Unit {0})
add_reassignment fact = modify (λ s. record s { reassignments = s.reassignments ++ fact ∷ [] })

-- `ExceptionTaskReassignmentView`
abbrev reassignment_view : TaskReassignment → Object
reassignment_view f =
    ("id", str (ident f.reassignment_id))
    ∷ ("case_id", str (ident f.reassigned_case))
    ∷ ("old_task_id", str (ident f.old_task))
    ∷ ("new_task_id", str (ident f.new_task))
    ∷ ("reason", str f.reassign_reason)
    ∷ ("actor_id", str (ident f.reassign_actor))
    ∷ ("idempotency_key", str f.reassign_key)
    ∷ ("created_at", number f.reassigned_at)
    ∷ []

-- The exchange of the tasks: the new one is returned.
unfoldable pub replace_task : CourierTask → Key → Action CourierTask
replace_task old reason = do
  new ← add_task old.task_shipment old.station_id old.task_type
  now ← gets (λ s. s.now)
  save_task (replaced old reason now new.task_id)
  pure new

unfoldable pub reassign_operation :
    ℕ → ℕ → Key → CurrentUser → Key → Key → Action IdempotencyResponse
reassign_operation case_id old_task_id reason actor key request_id = do
  require_operations_admin actor
  row ← lock_case case_id
  raise_if (not (is_being_handled row.case_status)) task_not_reassignable
  old ← or_raise (← gets (λ s. find_task old_task_id s.tasks)) task_not_reassignable
  raise_if (not (is_replaceable row old)) task_not_reassignable
  new ← replace_task old reason
  fact_id ← new_id
  now ← gets (λ s. s.now)
  let fact : TaskReassignment = record {
    reassignment_id = fact_id;
    reassigned_case = row.case_id;
    old_task = old.task_id;
    new_task = new.task_id;
    reassign_reason = reason;
    reassign_actor = actor.user_id;
    reassign_key = key;
    reassigned_at = now;
  }
  add_reassignment fact
  record_audit row actor "reassign_task" row.case_status (some reason) request_id
  pure (record { status_code = 200; body = reassignment_view fact })

unfoldable pub reassign_task :
    ℕ → ℕ → Key → CurrentUser → Key → Key → ℕ → Action IdempotencyResponse
reassign_task case_id old_task_id reason actor key request_id request_hash =
    execute
      (lit "exception:reassign-task:"
        ⊹ ident case_id
        ⊹ lit ":"
        ⊹ ident old_task_id
        ⊹ lit ":"
        ⊹ ident actor.user_id)
      key request_hash (reassign_operation case_id old_task_id reason actor key request_id)
