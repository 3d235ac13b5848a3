-- ===== src/Tests/Cases.antt =====
-- The exception cases, the pauses and the scan, at examples.
use yitu.Base.{
  ℕ, ◌+◌, ◌/◌, ◌≡◌, ◌≢◌, refl, Bool, true, false, ◌&&◌, ◌||◌, none, some, [], ◌∷◌, ◌==◌, arith,
}
use yitu.Base.Table.{by_key, put_row}
use yitu.Exceptions.Cases.{lock_case, can_manage, case_has_active_hold, record_audit}
use yitu.Exceptions.Handling.{action_operation, is_close}
use yitu.Exceptions.Handling.Effects.{action_operation-moves, closing_moment_of}
use yitu.Exceptions.Opening.{
  open_operation, write_case, hold_if_blocking, assert_manual_report_allowed, in_report_scope,
}
use yitu.Exceptions.Opening.Holds.{open_operation-is_blocked}
use yitu.Exceptions.Reassigning.{reassign_operation, replace_task}
use yitu.Exceptions.Reassigning.Tasks.{IsReplacement, reassign_operation-IsReplacement}
use yitu.Exceptions.Resume.{
  resume_operation, active_holds, source_ids, frozen_status_of, require_resolved, cases_with_ids,
  resume_pauses, active_pauses, report_resume, release_all,
}
use yitu.Exceptions.Resume.Unblocks.{resume_operation-unblocks}
use yitu.Exceptions.StateMachine
use yitu.Exceptions.StateMachine.{
  reportable, ExceptionStatus, address_error, default_policy, high, manual, assigned, resolved,
  close,
}
use yitu.Platform.Audit.{audit_record}
use yitu.Platform.Errors.{ok}
use yitu.Platform.Json.{lit, key_eq}
use yitu.Platform.Outbox.{append}
use yitu.Shipments.Control.{
  lock_shipment, is_blocked, find_source, place_exception_hold, release_exception_holds,
  lock_and_assert_fulfillment_allowed, is_open, assert_resume_preconditions, require_facts,
}
use yitu.Shipments.Enums.{operations_admin, home_delivery, picked_up, pending_pickup}
use yitu.Sla.Breaches.{
  scan_breaches, scan_loop, mark_breach, open_breach_case, report_breach, find_scan_case,
  due_instances,
}
use yitu.Sla.Breaches.Scan.{scan_breaches_again}
use yitu.Sla.Pauses.{pause, pause_for_source, resume_for_source, finish_pause, has_open_pause}
use yitu.Sla.Pauses.Consistency.{IsConsistent}
use yitu.Sla.Pauses.Extension.{IsExtension, finish_pause-IsExtension}
use yitu.Sla.Pauses.Invariant.{pauses-IsConsistent}
use yitu.Sla.Service.{status_is}
use yitu.Store.Cases.{ExceptionCase, SlaPause}
use yitu.Store.Queries.{find_shipment, find_case, find_task, find_instance, put_instance, find_rule}
use yitu.Store.Rows.{
  CurrentUser, Shipment, CourierTask, pickup, accepted, SlaRule, SlaInstance, running,
}
use yitu.Store.Session.{Session, transact}
use yitu.Tests.Data.{alice, parcel, task, hold, store}
use yitu.Tracking.{find_event, append_tracking_event, add_event, latest_sequence}

abbrev admin : CurrentUser
admin = record { user_id = 6; role = operations_admin; user_station = none }

abbrev case_in : ExceptionStatus → Bool → ExceptionCase
case_in status blocks = record {
  case_id = 41;
  case_shipment = 5;
  case_type = address_error;
  case_severity = high;
  case_status = status;
  case_source = manual;
  case_source_id = none;
  description = lit "wrong street";
  evidence_summary = [];
  case_blocks = blocks;
  frozen_shipment_status = some picked_up;
  reported_by = some 1;
  assigned_to = none;
  responsible_station = none;
  resolution_code = none;
  resolution_reason = none;
  opened_at = 0;
  assigned_at = none;
  resolved_at = none;
  case_closed_at = none;
  case_key = lit "k";
  case_request = lit "r";
}

abbrev fresh : Session
fresh = store (parcel pending_pickup home_delivery) [] [] []

abbrev reported : Session
reported =
    (open_operation 5 address_error (lit "wrong street") [] alice (lit "k") (lit "r") fresh).1

open_example :
    is_blocked 5 reported.holds
    ≡ (is_blocked 5 fresh.holds || ((default_policy address_error).blocks_fulfillment && (5 == 5)))
unfolding open_operation write_case hold_if_blocking assert_manual_report_allowed in_report_scope
    lock_shipment find_shipment by_key place_exception_hold find_source audit_record append
    reportable
open_example =
    open_operation-is_blocked 5 address_error (lit "wrong street") [] alice (lit "k") (lit "r")
      fresh 5 {t = reported} refl refl

abbrev frozen : Session
frozen = record (store (parcel picked_up home_delivery) [] (hold ∷ []) []) {
  cases = case_in resolved true ∷ [];
}

abbrev resumed : Session
resumed = (resume_operation 5 picked_up (lit "found") admin (lit "k") (lit "r") frozen).1

resume_example :
    (is_blocked 5 resumed.holds ≡ false)
    × ((x : Shipment) × (find_shipment 5 frozen.shipments ≡ some x)
        × (lock_and_assert_fulfillment_allowed 5 resumed ≡ (ok x, resumed)))
unfolding resume_operation lock_shipment find_shipment by_key active_holds frozen_status_of
    require_resolved source_ids cases_with_ids release_all active_pauses resume_pauses
    release_exception_holds assert_resume_preconditions require_facts report_resume
    append_tracking_event find_event add_event latest_sequence audit_record append
resume_example =
    resume_operation-unblocks 5 picked_up (lit "found") admin (lit "k") (lit "r") frozen
      {t = resumed} refl

abbrev worked_on : Session
worked_on = record (store (parcel picked_up home_delivery) (task pickup accepted ∷ []) [] []) {
  cases = case_in assigned false ∷ [];
}

abbrev reassigned : Session
reassigned = (reassign_operation 41 30 (lit "ill") admin (lit "k") (lit "r") worked_on).1

reassign_example :
    (old : CourierTask) × (find_task 30 worked_on.tasks ≡ some old)
    × (is_open old.task_status ≡ true)
    × IsReplacement 30 old (lit "ill") worked_on reassigned.tasks
unfolding reassign_operation lock_case lock_shipment find_shipment find_case find_task by_key
    replace_task record_audit audit_record
reassign_example =
    reassign_operation-IsReplacement 41 30 (lit "ill") admin (lit "k") (lit "r") worked_on
      {t = reassigned} refl refl

abbrev solved : Session
solved = record (store (parcel picked_up home_delivery) [] [] []) {
  cases = case_in resolved false ∷ [];
}

abbrev shut : Session
shut = (action_operation 41 close admin none (lit "r") solved).1

action_example :
    (row : ExceptionCase) × (target : ExceptionStatus) × (find_case 41 solved.cases ≡ some row)
    × (StateMachine.transition row.case_status close ≡ ok target)
    × (can_manage row admin ≡ true)
    × ((is_close close && case_has_active_hold 41 solved.holds) ≡ false)
    × ((next : ExceptionCase) × (find_case 41 shut.cases ≡ some next)
        × (next ≡ record row { case_status = target; case_closed_at = next.case_closed_at })
        × (next.case_closed_at ≡ closing_moment_of target row.case_closed_at 1000))
    × ((j : ℕ) → j ≢ 41 → find_case j shut.cases ≡ find_case j solved.cases)
unfolding action_operation lock_case lock_shipment find_shipment find_case by_key
    StateMachine.transition case_has_active_hold record_audit audit_record
action_example = action_operation-moves 41 close admin none (lit "r") solved {t = shut} refl

abbrev slow_rule : SlaRule
slow_rule = record {
  rule_id = 91;
  rule_version = "v1";
  route = "DEFAULT";
  service_type = "STANDARD";
  rule_stage = "PICKUP";
  target_work_hours = some 8;
  target_natural_hours = none;
  effective_from = 0;
  effective_to = none;
  rule_active = true;
}

abbrev stage : SlaInstance
stage = record {
  sla_id = 90;
  sla_shipment = 5;
  sla_owner = 1;
  sla_rule = 91;
  sla_rule_version = "v1";
  sla_stage = "PICKUP";
  sla_status = running;
  sla_started_at = some 0;
  promised_delivery_at = some 500;
  eta_at = none;
  sla_completed_at = none;
  paused_seconds = 0;
  breached = false;
  last_scan_key = none;
}

abbrev staged : Session
staged = record fresh { sla_instances = stage ∷ []; sla_rules = slow_rule ∷ [] }

staged-IsConsistent : IsConsistent 90 staged
unfolding find_instance by_key has_open_pause
staged-IsConsistent row f = ground (arith, f)

pauses_example :
    IsConsistent 90 (transact (pause 90 (lit "storm")) staged).1
    × IsConsistent 90
        (transact
          (pause_for_source 90 (lit "storm") (lit "W") "EXCEPTION_CASE" 41 6 (lit "k"))
          staged).1
    × IsConsistent 90 (transact (resume_for_source 90 "EXCEPTION_CASE" 41 (lit "k")) staged).1
pauses_example =
    pauses-IsConsistent 90 staged (lit "storm") (lit "W") "EXCEPTION_CASE" 41 6 (lit "k")
      staged-IsConsistent

abbrev open_pause : SlaPause
open_pause = record {
  pause_id = 92;
  pause_instance = 90;
  pause_reason = lit "storm";
  reason_code = none;
  pause_source = none;
  pause_source_id = none;
  pause_actor = none;
  pause_key = none;
  resume_key = none;
  pause_started = 400;
  pause_ended = none;
  duration_seconds = 0;
}

later_example :
    (later : ℕ) × IsExtension slow_rule 500 400 1000 later
    × ((finish_pause stage open_pause none staged).0
        ≡ ok (record stage {
          promised_delivery_at = some later;
          paused_seconds = stage.paused_seconds + 600 / 1_000_000;
        }))
unfolding find_rule by_key
later_example = finish_pause-IsExtension stage open_pause none staged refl refl

abbrev scanned : Session
scanned = (scan_breaches (lit "w1") staged).1

scan_example : scan_breaches (lit "w1") scanned ≡ (ok [], scanned)
unfolding scan_breaches due_instances scan_loop mark_breach open_breach_case find_scan_case
    report_breach find_shipment by_key put_instance put_row audit_record append status_is key_eq
scan_example = scan_breaches_again (lit "w1") staged {t = scanned} refl
