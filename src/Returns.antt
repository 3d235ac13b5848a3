-- ===== src/Returns.antt =====
-- backend/src/yitu/returns/service.py: cancellation, interception, redelivery, conversion to a
-- pickup, and return. Each operation of `RecoveryService` is run by `execute`, which locks the
-- shipment, opens the case and records the facts.
pub mod Operations
pub mod Refunds
pub mod Tasks
use Operations.{
  Outcome, RecoveryOperation, create_recovery_case, cancel_operation, interception_operation,
  redelivery_operation, convert_to_pickup_operation, approve_return_operation,
  advance_return_operation,
}
use Prim.Native.String.{String}
use yitu.Base.{ℕ, none, some, List, [], ◌∷◌}
use yitu.Identity.{require_resource_owner}
use yitu.Payments.{optional_id}
use yitu.Platform.Audit.{audit_record}
use yitu.Platform.Errors.{forbidden_recovery_action}
use yitu.Platform.Idempotency
use yitu.Platform.Json.{Key, lit, ident, ◌⊹◌, Object, str, number, fields}
use yitu.Shipments.Control.{lock_and_assert_fulfillment_allowed}
use yitu.Shipments.Enums.{Role, customer, courier, station_operator, operations_admin}
use yitu.Shipments.Transition.{status_text, shipment_key}
use yitu.Store.Rows.{
  CurrentUser, Shipment, RecoveryCase, RecoveryAction, cancel, interception, redelivery,
  convert_to_pickup, return_action, RecoveryStatus, requested, approved, in_progress,
  recovery_completed, TrackingEvent, IdempotencyResponse,
}
use yitu.Store.Session.{Action, raise, pure, ◌>>=◌, ◌>>◌}
use yitu.Tracking.{append_tracking_event}

abbrev action_text : RecoveryAction → String
action_text cancel = "CANCEL"
action_text interception = "INTERCEPTION"
action_text redelivery = "REDELIVERY"
action_text convert_to_pickup = "CONVERT_TO_PICKUP"
action_text return_action = "RETURN"

-- f"RECOVERY_{recovery.action.value}"
abbrev recovery_event : RecoveryAction → String
recovery_event cancel = "RECOVERY_CANCEL"
recovery_event interception = "RECOVERY_INTERCEPTION"
recovery_event redelivery = "RECOVERY_REDELIVERY"
recovery_event convert_to_pickup = "RECOVERY_CONVERT_TO_PICKUP"
recovery_event return_action = "RECOVERY_RETURN"

-- `recovery.action.value.lower()`
abbrev action_lower : RecoveryAction → String
action_lower cancel = "cancel"
action_lower interception = "interception"
action_lower redelivery = "redelivery"
action_lower convert_to_pickup = "convert_to_pickup"
action_lower return_action = "return"

abbrev recovery_text : RecoveryStatus → String
recovery_text requested = "REQUESTED"
recovery_text approved = "APPROVED"
recovery_text in_progress = "IN_PROGRESS"
recovery_text recovery_completed = "COMPLETED"

-- `_assert_actor_scope`
abbrev pub assert_actor_scope : Role → Shipment → CurrentUser → Action (Unit {0})
assert_actor_scope operations_admin shipment actor = pure tt
assert_actor_scope customer shipment actor = require_resource_owner shipment.owner_id actor
assert_actor_scope courier shipment actor = raise forbidden_recovery_action
assert_actor_scope station_operator shipment actor = raise forbidden_recovery_action

-- `_record_facts`
abbrev pub facts_summary : Shipment → RecoveryCase → Object
facts_summary shipment recovery =
    ("recovery_status", str (lit (recovery_text recovery.recovery_status)))
    ∷ ("shipment_status", str (lit (status_text shipment.status)))
    ∷ []

unfoldable pub record_facts : Shipment → RecoveryCase → CurrentUser → Key → Key → Action (Unit {0})
record_facts shipment recovery actor reason request_id = do
  append_tracking_event shipment.id (recovery_event recovery.recovery_action)
      (lit "恢复动作已记录：" ⊹ lit (action_text recovery.recovery_action))
      (lit "tracking:recovery:" ⊹ ident recovery.recovery_id)
  audit_record (ident actor.user_id) (lit "recovery." ⊹ lit (action_lower recovery.recovery_action))
      (shipment_key shipment.id) none (some (facts_summary shipment recovery)) (some reason)
      request_id
  pure tt

-- `RecoveryView`, less its moments, and `RecoveryShipmentView`
abbrev case_view : RecoveryCase → List (String × Key)
case_view r =
    ("id", ident r.recovery_id)
    ∷ ("shipment_id", ident r.recovery_shipment)
    ∷ ("action", lit (action_text r.recovery_action))
    ∷ ("status", lit (recovery_text r.recovery_status))
    ∷ ("reason", r.recovery_reason)
    ∷ ("actor_id", ident r.recovery_actor)
    ∷ []

abbrev recovery_view : Outcome → Object
recovery_view o =
    ("shipment_id", str (ident o.outcome_shipment.id))
    ∷ ("shipment_status", str (lit (status_text o.outcome_shipment.status)))
    ∷ ("recovery", fields (case_view o.outcome_recovery))
    ∷ ("refund_amount_cents", number o.refund_amount)
    ∷ ("new_task_id", optional_id o.new_task_id)
    ∷ []

-- `wrapped` of `_execute`
unfoldable pub wrapped :
    ℕ
    → RecoveryAction
    → Key
    → CurrentUser
    → Key
    → Key
    → RecoveryOperation
    → Action IdempotencyResponse
wrapped shipment_id action reason actor key request_id operation = do
  shipment ← lock_and_assert_fulfillment_allowed shipment_id
  assert_actor_scope actor.role shipment actor
  recovery ← create_recovery_case shipment action reason actor key request_id
  outcome ← operation shipment recovery actor reason key
  record_facts outcome.outcome_shipment outcome.outcome_recovery actor reason request_id
  pure (record { status_code = 200; body = recovery_view outcome })

-- `_execute`
unfoldable pub execute :
    ℕ
    → RecoveryAction
    → Key
    → CurrentUser
    → Key
    → Key
    → ℕ
    → RecoveryOperation
    → Action IdempotencyResponse
execute shipment_id action reason actor key request_id request_hash operation =
    Idempotency.execute
      (lit "recovery:"
        ⊹ lit (action_text action)
        ⊹ lit ":"
        ⊹ ident shipment_id
        ⊹ lit ":"
        ⊹ ident actor.user_id)
      key request_hash (wrapped shipment_id action reason actor key request_id operation)

module _ (shipment_id : ℕ) (reason : Key) (actor : CurrentUser) (key request_id : Key)
    (request_hash : ℕ) where
  -- `cancel`
  unfoldable pub cancel_shipment : Action IdempotencyResponse
  cancel_shipment =
      execute shipment_id cancel reason actor key request_id request_hash cancel_operation

  unfoldable pub request_interception : Action IdempotencyResponse
  request_interception =
      execute shipment_id interception reason actor key request_id request_hash
        interception_operation

  unfoldable pub redeliver : Action IdempotencyResponse
  redeliver =
      execute shipment_id redelivery reason actor key request_id request_hash redelivery_operation

  -- `convert_to_pickup`
  unfoldable pub convert_shipment : Action IdempotencyResponse
  convert_shipment =
      execute shipment_id convert_to_pickup reason actor key request_id request_hash
        convert_to_pickup_operation

  unfoldable pub approve_return : Action IdempotencyResponse
  approve_return =
      execute shipment_id return_action reason actor key request_id request_hash
        approve_return_operation

  unfoldable pub advance_return : Action IdempotencyResponse
  advance_return =
      execute shipment_id return_action reason actor key request_id request_hash
        advance_return_operation
