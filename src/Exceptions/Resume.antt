-- ===== src/Exceptions/Resume.antt =====
-- backend/src/yitu/exceptions/service.py, `resume_shipment`: the holds of a shipment are released
-- once the cases behind them are resolved, and the stages they paused run again.
pub mod Releases
pub mod Unblocks
use Prim.Native.String.{String}
use package.text.Mathlib.Text.{◌==◌ as str_eq}
use yitu.Base.{
  ℕ, map, Bool, true, false, ◌&&◌, not, Option, none, some, List, [], ◌∷◌, length, select,
  update_where, any_of, all_of, is_some, ◌==◌,
}
use yitu.Exceptions.Cases.{require_operations_admin}
use yitu.Exceptions.StateMachine.{ExceptionStatus, resolved}
use yitu.Platform.Audit.{audit_record}
use yitu.Platform.Errors.{
  shipment_not_blocked, resume_precondition_failed, resume_target_mismatch,
  unresolved_blocking_cases,
}
use yitu.Platform.Idempotency.{execute}
use yitu.Platform.Json.{Key, lit, ident, ◌⊹◌, Object, str, number}
use yitu.Platform.Outbox.{append}
use yitu.Exceptions.Cases.{owner_notice}
use yitu.Shipments.Control.{
  lock_shipment, contains, release_exception_holds, assert_resume_preconditions,
}
use yitu.Shipments.Enums.{ShipmentStatus, status_eq}
use yitu.Shipments.Transition.{status_text}
use yitu.Sla.Pauses.{source_is, resume_for_source}
use yitu.Store.Cases.{ExceptionCase, SlaPause}
use yitu.Store.Rows.{CurrentUser, Shipment, ShipmentHold, IdempotencyResponse}
use yitu.Store.Session.{Action, modify, gets, raise, raise_if, pure, ◌>>=◌, ◌>>◌}
use yitu.Tracking.{append_tracking_event}

abbrev pub is_active_hold : ℕ → ShipmentHold → Bool
is_active_hold shipment_id h = (h.hold_shipment == shipment_id) && h.active

-- `_active_holds_for_update`
unfoldable pub active_holds : ℕ → List ShipmentHold → List ShipmentHold
active_holds shipment_id = select (is_active_hold shipment_id)

-- `_blocking_cases_for_update`
unfoldable pub cases_with_ids : List ℕ → List ExceptionCase → List ExceptionCase
cases_with_ids ids = select (λ c. contains c.case_id ids)

abbrev source_in : List ℕ → Option ℕ → Bool
source_in ids none = false
source_in ids (some i) = contains i ids

-- `_active_sla_pauses_for_sources`
unfoldable pub active_pauses : List ℕ → List SlaPause → List SlaPause
active_pauses ids = select λ p.
    (source_is p.pause_source "EXCEPTION_CASE" && source_in ids p.pause_source_id)
    && not (is_some p.pause_ended)

abbrev pub is_case_hold : ShipmentHold → Bool
is_case_hold h = str_eq h.source_type "EXCEPTION_CASE"

-- The sources of the holds that come from a case.
unfoldable pub source_ids : List ShipmentHold → List ℕ
source_ids holds = map (λ (h : ShipmentHold). h.source_id) (select is_case_hold holds)

abbrev pub is_resolved : ExceptionStatus → Bool
is_resolved resolved = true
is_resolved _ = false

-- The stage at which the shipment was frozen, on which all the holds agree.
unfoldable pub frozen_status_of : List ShipmentHold → Action ShipmentStatus
frozen_status_of [] = raise shipment_not_blocked
frozen_status_of (h ∷ hs) = do
  raise_if (not (all_of (λ x. status_eq x.frozen_status h.frozen_status) hs))
      resume_precondition_failed
  pure h.frozen_status

-- The guards on the cases behind the holds: they are returned.
unfoldable pub require_resolved : List ShipmentHold → Action (List ExceptionCase)
require_resolved holds = do
  raise_if (not (length (source_ids holds) == length holds)) resume_precondition_failed
  cases ← gets (λ s. cases_with_ids (source_ids holds) s.cases)
  raise_if (not ((length cases == length (source_ids holds)) && all_of (λ c. c.case_blocks) cases))
      resume_precondition_failed
  raise_if (not (all_of (λ c. is_resolved c.case_status) cases)) unresolved_blocking_cases
  pure cases

abbrev resume_pause : SlaPause → Key → Action (Unit {0})
resume_pause p key = elim p.pause_source_id [
  | none ↦ pure tt
  | some i ↦ do
    resume_for_source p.pause_instance "EXCEPTION_CASE" i
        (lit "sla:resume:" ⊹ ident i ⊹ lit ":" ⊹ key)
    pure tt
]

unfoldable pub resume_pauses : List SlaPause → Key → Action (Unit {0})
resume_pauses [] key = pure tt
resume_pauses (p ∷ ps) key = resume_pause p key >> resume_pauses ps key

abbrev pub unblocked : ExceptionCase → ExceptionCase
unblocked c = record c { case_blocks = false }

-- `for case in cases: case.blocks_fulfillment = False`
abbrev pub unblock_cases : List ℕ → Action (Unit {0})
unblock_cases ids =
    modify λ s. record s { cases = update_where (λ c. contains c.case_id ids) unblocked s.cases }

abbrev pub resumed_body : Shipment → ℕ → Object
resumed_body shipment released_count =
    ("shipment_id", str (ident shipment.id))
    ∷ ("status", str (lit (status_text shipment.status)))
    ∷ ("resumed_hold_count", number released_count)
    ∷ []

abbrev pub before_resume : ShipmentStatus → ℕ → Object
before_resume frozen_status active_count =
    ("status", str (lit (status_text frozen_status)))
    ∷ ("active_hold_count", number active_count)
    ∷ []

abbrev pub after_resume : Shipment → ℕ → Object
after_resume shipment released_count =
    ("status", str (lit (status_text shipment.status)))
    ∷ ("released_hold_count", number released_count)
    ∷ []

-- What a resume writes beside the holds: the track, the audit entry and the notice.
unfoldable pub report_resume :
    Shipment → ShipmentStatus → ℕ → ℕ → Key → CurrentUser → Key → Key → Action (Unit {0})
report_resume shipment frozen_status active_count released_count reason actor key request_id = do
  append_tracking_event shipment.id "SHIPMENT_RESUMED" (lit "履约已恢复")
      (lit "tracking:shipment:" ⊹ ident shipment.id ⊹ lit ":resumed:" ⊹ key)
  audit_record (ident actor.user_id) (lit "shipment.resume") (lit "shipment:" ⊹ ident shipment.id)
      (some (before_resume frozen_status active_count))
      (some (after_resume shipment released_count)) (some reason) request_id
  append "notification.requested" (lit "shipment:" ⊹ ident shipment.id ⊹ lit ":resumed")
      (owner_notice shipment "SHIPMENT_RESUMED")
      (lit "notification:shipment:" ⊹ ident shipment.id ⊹ lit ":resumed:" ⊹ key)
  pure tt

-- The writes of a resume, once its guards have passed.
unfoldable pub release_all :
    Shipment → ShipmentStatus → List ShipmentHold → Key → CurrentUser → Key → Key → Action ℕ
release_all shipment frozen_status holds reason actor key request_id = do
  pauses ← gets (λ s. active_pauses (source_ids holds) s.pauses)
  resume_pauses pauses key
  released ← release_exception_holds shipment.id "EXCEPTION_CASE" (source_ids holds) actor key
  unblock_cases (source_ids holds)
  report_resume shipment frozen_status (length holds) (length released) reason actor key request_id
  pure (length released)

unfoldable pub resume_operation :
    ℕ → ShipmentStatus → Key → CurrentUser → Key → Key → Action IdempotencyResponse
resume_operation shipment_id target_status reason actor key request_id = do
  require_operations_admin actor
  shipment ← lock_shipment shipment_id
  holds ← gets (λ s. active_holds shipment_id s.holds)
  frozen_status ← frozen_status_of holds
  raise_if (not (status_eq target_status frozen_status)) resume_target_mismatch
  require_resolved holds
  assert_resume_preconditions shipment frozen_status
  count ← release_all shipment frozen_status holds reason actor key request_id
  pure (record { status_code = 200; body = resumed_body shipment count })

unfoldable pub resume_shipment :
    ℕ → ShipmentStatus → Key → CurrentUser → Key → Key → ℕ → Action IdempotencyResponse
resume_shipment shipment_id target_status reason actor key request_id request_hash =
    execute (lit "shipment:resume:" ⊹ ident shipment_id ⊹ lit ":" ⊹ ident actor.user_id) key
      request_hash (resume_operation shipment_id target_status reason actor key request_id)
