-- ===== src/Returns/Tasks.antt =====
-- The courier tasks after a recovery (backend/src/yitu/returns/service.py and
-- backend/src/yitu/dispatch/service.py).
use yitu.Base.{
  ℕ, ◌+◌, ◌≡◌, refl, true, false, none, some, [], ◌∷◌, ◌++◌, List, arith, length, select,
}
use yitu.Dispatch.{accept_task, claim_task, get_task}
use yitu.Platform.Errors.{ok, err, is_ok, invalid_shipment_transition}
use yitu.Platform.Json.{Key}
use yitu.Returns.Operations.{
  cancel_operation, redelivery_operation, convert_to_pickup_operation, close_tasks, is_open_of,
  is_open_delivery, Outcome, refund_paid_amount,
}
use yitu.Shipments.Control.{lock_and_assert_fulfillment_allowed, lock_shipment}
use yitu.Shipments.Enums.{
  delivery_assigned, cancelled, waiting_for_recipient_pickup, station_pickup,
}
use yitu.Shipments.StateMachine
use yitu.Shipments.Transition.Effects.{transition_refused}
use yitu.Shipments.Transition.{transition_key}
use yitu.Sla.Service.{cancel_active_for_shipment}
use yitu.Sla.Service.Frame.{start_recovery-StagesOnly}
use yitu.Store.Queries.{find_task, put_task, find_shipment, put_shipment}
use yitu.Store.Rows.{
  CurrentUser, Shipment, RecoveryCase, CourierTask, available, accepted, delivery,
}
use yitu.Store.Session.{Session}
use yitu.Tracking.{find_event}

-- How many open tasks, and how many open delivery tasks, a shipment has.
abbrev pub open_tasks : ℕ → List CourierTask → ℕ
open_tasks k ts = length (select (is_open_of k) ts)

unfoldable pub open_deliveries : ℕ → List CourierTask → List CourierTask
open_deliveries k = select (is_open_delivery k)

closed-open :
    (k : ℕ) (reason : Key) (now : ℕ) (ts : List CourierTask)
    → select (is_open_of k) (close_tasks (is_open_of k) reason now ts) ≡ []
unfolding close_tasks
closed-open k reason now [] = refl
closed-open k reason now (t ∷ ts) = ground (arith, closed-open k reason now ts)

closed-deliveries :
    (k : ℕ) (reason : Key) (now : ℕ) (task : CourierTask) (ts : List CourierTask)
    → is_open_delivery k task ≡ true
    → open_deliveries k (close_tasks (is_open_delivery k) reason now ts ++ task ∷ []) ≡ task ∷ []
unfolding close_tasks open_deliveries
closed-deliveries k reason now task [] h = ground arith
closed-deliveries k reason now task (t ∷ ts) h =
    ground (arith, closed-deliveries k reason now task ts)

closed_only-deliveries :
    (k : ℕ) (reason : Key) (now : ℕ) (ts : List CourierTask)
    → open_deliveries k (close_tasks (is_open_delivery k) reason now ts) ≡ []
unfolding close_tasks open_deliveries
closed_only-deliveries k reason now [] = refl
closed_only-deliveries k reason now (t ∷ ts) =
    ground (arith, closed_only-deliveries k reason now ts)

module _ (shipment : Shipment) (recovery : RecoveryCase) (actor : CurrentUser) (reason key : Key)
    (s : Session) where
  -- After a cancellation that returns, the shipment has no open task and its object is cancelled.
  pub cancel_closes_tasks :
      {o : Outcome} {t : Session}
      → cancel_operation shipment recovery actor reason key s ≡ (ok o, t)
      → (open_tasks shipment.id t.tasks ≡ 0) × (o.outcome_shipment.status ≡ cancelled)
  unfolding cancel_operation cancel_active_for_shipment refund_paid_amount
  cancel_closes_tasks {o} {t} h =
      (ground (arith, closed-open shipment.id reason s.now s.tasks), ground arith)

  -- The task that a redelivery opens.
  abbrev pub redelivery_task : ℕ → CourierTask
  redelivery_task destination = record {
    task_id = s.next_id;
    task_shipment = shipment.id;
    station_id = destination;
    task_type = delivery;
    task_status = available;
    assignee_id = none;
    closed_reason = none;
    closed_at = none;
    replaced_by_task_id = none;
  }

  redelivery-tasks :
      {o : Outcome} {t : Session} {destination : ℕ}
      → shipment.destination_station_id ≡ some destination
      → redelivery_operation shipment recovery actor reason key s ≡ (ok o, t)
      → t.tasks
        ≡ close_tasks (is_open_delivery shipment.id) reason s.now s.tasks
          ++ redelivery_task destination ∷ []
  unfolding redelivery_operation
  redelivery-tasks {o} {t} {destination} d h = ground (
    arith,
    start_recovery-StagesOnly shipment.id "DELIVERY_REDELIVERY" (record s {
      next_id = s.next_id + 1;
      tasks =
          close_tasks (is_open_delivery shipment.id) reason s.now s.tasks
          ++ redelivery_task destination ∷ [];
    }),
  )

  -- A redelivery that returns leaves the shipment exactly one open delivery task: the new one,
  -- which waits at the destination for a courier, and whose id it returns.
  pub redelivery_one_task :
      {o : Outcome} {t : Session} {destination : ℕ}
      → shipment.destination_station_id ≡ some destination
      → redelivery_operation shipment recovery actor reason key s ≡ (ok o, t)
      → (open_deliveries shipment.id t.tasks ≡ redelivery_task destination ∷ [])
        × (o.new_task_id ≡ some (redelivery_task destination).task_id)
  unfolding redelivery_operation
  redelivery_one_task {o} {t} {destination} d h = (
    rw (redelivery-tasks d h) (
        closed-deliveries shipment.id reason s.now (redelivery_task destination) s.tasks
          (ground arith)),
    ground arith,
  )

  convert-tasks :
      {o : Outcome} {t : Session}
      → convert_to_pickup_operation shipment recovery actor reason key s ≡ (ok o, t)
      → t.tasks ≡ close_tasks (is_open_delivery shipment.id) reason s.now s.tasks
  unfolding convert_to_pickup_operation
  convert-tasks {o} {t} h = ground (
    arith,
    start_recovery-StagesOnly shipment.id "PICKUP_AT_STATION" (record s {
      tasks = close_tasks (is_open_delivery shipment.id) reason s.now s.tasks;
      shipments =
          put_shipment
            (record shipment {
              delivery_method = station_pickup;
              status = waiting_for_recipient_pickup;
            })
            s.shipments;
    }),
  )

  -- A conversion to a pickup that returns leaves the shipment no open delivery task, and its object
  -- waits for the recipient at the station.
  pub convert_closes_deliveries :
      {o : Outcome} {t : Session}
      → convert_to_pickup_operation shipment recovery actor reason key s ≡ (ok o, t)
      → (open_deliveries shipment.id t.tasks ≡ [])
        × (o.outcome_shipment.status ≡ waiting_for_recipient_pickup)
        × (o.outcome_shipment.delivery_method ≡ station_pickup)
  unfolding convert_to_pickup_operation
  convert_closes_deliveries {o} {t} h = (
    rw (convert-tasks h) (closed_only-deliveries shipment.id reason s.now s.tasks),
    ground arith,
    ground arith,
  )

refused :
    StateMachine.transition delivery_assigned delivery_assigned ≡ err invalid_shipment_transition
unfolding StateMachine.transition
refused = refl

-- A courier cannot accept a delivery task of a shipment that is already assigned for delivery, as
-- a redelivery leaves it, unless the request was recorded before: the call raises.
pub redelivered_task_stuck :
    (task_id : ℕ) (actor : CurrentUser) (request_id : Key) (s : Session) {row : CourierTask}
    {r : Shipment}
    → find_task task_id s.tasks ≡ some row
    → row.task_type ≡ delivery
    → find_shipment row.task_shipment s.shipments ≡ some r
    → r.status ≡ delivery_assigned
    → find_event r.id (transition_key r.id "assign_delivery" request_id) s.tracking ≡ none
    → is_ok (accept_task task_id actor request_id s).0 ≡ false
unfolding accept_task claim_task get_task lock_and_assert_fulfillment_allowed lock_shipment
redelivered_task_stuck task_id actor request_id s {row} {r} f d n st e = ground (
  arith,
  transition_refused r delivery_assigned actor "assign_delivery" request_id
      (record s {
        tasks =
            put_task (record row { task_status = accepted; assignee_id = some actor.user_id })
              s.tasks;
      })
      {e = invalid_shipment_transition} e (rw st refused),
)
