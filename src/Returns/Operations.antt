-- ===== src/Returns/Operations.antt =====
-- The operations of backend/src/yitu/returns/service.py. The loaded shipment and case are shared
-- objects: an operation gives them back as it leaves them.
use yitu.Base.{
  ℕ, ◌-◌, Bool, true, false, ◌&&◌, not, Option, none, some, List, [], ◌∷◌, ◌++◌, sum_by, select,
  update_where, ◌==◌, opt_eq, ltb, leb, if◌then◌else◌,
}
use yitu.Base.Table.{put_row, latest_by}
use yitu.Dispatch.{add_task}
use yitu.Linehaul.{save_leg}
use yitu.Payments.{paid_total, add_payment, is_payment}
use yitu.Platform.Errors.{
  shipment_not_cancellable, interception_not_allowed, redelivery_not_allowed,
  destination_station_required, convert_to_pickup_not_allowed, return_not_allowed,
  return_not_advanceable,
}
use yitu.Platform.Json.{Key, lit, ◌⊹◌}
use yitu.Shipments.Control.{save_shipment, type_eq, is_open, leg_running}
use yitu.Shipments.Enums.{
  ShipmentStatus, pending_payment, pending_pickup, waiting_for_dropoff, picked_up,
  at_origin_station, in_linehaul, at_destination_station, delivery_assigned, out_for_delivery,
  waiting_for_recipient_pickup, delivered, cancelled, return_approved, in_return, returned,
  station_pickup,
}
use yitu.Shipments.StateMachine.{one_of}
use yitu.Sla.Service.{start_recovery_stage, cancel_active_for_shipment}
use yitu.Store.Rows.{
  CurrentUser, Shipment, CourierTask, delivery, task_cancelled, TransportLeg, in_transit, arrived,
  PaymentTransaction, refund, RecoveryCase, RecoveryAction, RecoveryStatus, requested, approved,
  in_progress, recovery_completed,
}
use yitu.Store.Session.{Action, new_id, modify, gets, raise, or_raise, raise_if, pure, ◌>>=◌, ◌>>◌}

pub record Outcome : Type 0 where
  pub refund_amount : ℕ
  pub new_task_id : Option ℕ
  pub outcome_shipment : Shipment
  pub outcome_recovery : RecoveryCase

-- shipment, case, actor, reason, idempotency key
abbrev pub RecoveryOperation : Type 0
RecoveryOperation = Shipment → RecoveryCase → CurrentUser → Key → Key → Action Outcome

-- `_create_recovery_case`
abbrev pub create_recovery_case :
    Shipment → RecoveryAction → Key → CurrentUser → Key → Key → Action RecoveryCase
create_recovery_case shipment action reason actor key request_id = do
  recovery_id ← new_id
  now ← gets (λ s. s.now)
  let recovery : RecoveryCase = record {
    recovery_id = recovery_id;
    recovery_shipment = shipment.id;
    recovery_action = action;
    recovery_status = requested;
    recovery_reason = reason;
    recovery_actor = actor.user_id;
    recovery_key = key;
    recovery_request = request_id;
    recovery_created_at = now;
    recovery_completed_at = none;
  }
  modify (λ s. record s { recoveries = s.recoveries ++ recovery ∷ [] })
  pure recovery

abbrev pub save_recovery : RecoveryCase → Action (Unit {0})
save_recovery row =
    modify
      λ s. record s { recoveries = put_row (λ (r : RecoveryCase). r.recovery_id) row s.recoveries }

-- `recovery.status = status`
abbrev pub set_status : RecoveryCase → RecoveryStatus → Action RecoveryCase
set_status recovery status = do
  save_recovery (record recovery { recovery_status = status })
  pure (record recovery { recovery_status = status })

abbrev pub completed_case : RecoveryCase → ℕ → RecoveryCase
completed_case recovery now = record recovery {
  recovery_status = recovery_completed;
  recovery_completed_at = some now;
}

-- `recovery.status = COMPLETED` and its moment
abbrev pub finish_case : RecoveryCase → Action RecoveryCase
finish_case recovery = do
  now ← gets (λ s. s.now)
  save_recovery (completed_case recovery now)
  pure (completed_case recovery now)

abbrev pub refunded_amount : ℕ → PaymentTransaction → ℕ
refunded_amount shipment_id p = elim p.transaction_type [
  | refund ↦
      if opt_eq p.payment_shipment (some shipment_id) && p.succeeded then p.amount_cents else 0
  | _ ↦ 0
]

-- `_refund_total`
unfoldable pub refund_total : ℕ → List PaymentTransaction → ℕ
refund_total shipment_id = sum_by (refunded_amount shipment_id)

abbrev earlier : Option PaymentTransaction → PaymentTransaction → PaymentTransaction
earlier none p = p
earlier (some q) p = if ltb q.paid_at p.paid_at then q else p

-- The first payment of a shipment.
unfoldable pub first_payment : ℕ → List PaymentTransaction → Option PaymentTransaction
first_payment shipment_id [] = none
first_payment shipment_id (p ∷ ps) =
    let rest = first_payment shipment_id ps in
    if opt_eq p.payment_shipment (some shipment_id) && (is_payment p && p.succeeded)
    then some (earlier rest p)
    else rest

abbrev pub related_id : Option PaymentTransaction → Option ℕ
related_id none = none
related_id (some p) = some p.payment_id

-- `_refund_paid_amount`. The amount is refused when it is not positive, so that the difference is
-- exact.
unfoldable pub refund_paid_amount : Shipment → CurrentUser → Key → Action ℕ
refund_paid_amount shipment actor key = do
  paid ← gets (λ s. paid_total shipment.id s.payments)
  refunded ← gets (λ s. refund_total shipment.id s.payments)
  first ← gets (λ s. first_payment shipment.id s.payments)
  elim (leb paid refunded) [
    | true ↦ pure 0
    | false ↦ do
      add_payment shipment.owner_id none shipment.id (related_id first) refund (paid - refunded)
          (lit "recovery:" ⊹ key ⊹ lit ":refund")
      pure (paid - refunded)
  ]

abbrev closed_task : Key → ℕ → CourierTask → CourierTask
closed_task reason now t = record t {
  task_status = task_cancelled;
  closed_reason = some reason;
  closed_at = some now;
}

abbrev pub is_open_of : ℕ → CourierTask → Bool
is_open_of shipment_id t = (t.task_shipment == shipment_id) && is_open t.task_status

abbrev pub is_open_delivery : ℕ → CourierTask → Bool
is_open_delivery shipment_id t =
    ((t.task_shipment == shipment_id) && type_eq t.task_type delivery) && is_open t.task_status

unfoldable pub close_tasks : (CourierTask → Bool) → Key → ℕ → List CourierTask → List CourierTask
close_tasks p reason now = update_where p (closed_task reason now)

-- `_cancel_active_tasks`
abbrev pub cancel_active_tasks : ℕ → Key → Action (Unit {0})
cancel_active_tasks shipment_id reason =
    modify λ s. record s { tasks = close_tasks (is_open_of shipment_id) reason s.now s.tasks }

-- `_cancel_active_delivery_tasks`
abbrev pub cancel_active_delivery_tasks : ℕ → Key → Action (Unit {0})
cancel_active_delivery_tasks shipment_id reason =
    modify λ s. record s { tasks = close_tasks (is_open_delivery shipment_id) reason s.now s.tasks }

-- `shipment.status = status`
abbrev pub move : Shipment → ShipmentStatus → Action Shipment
move shipment status = do
  save_shipment (record shipment { status = status })
  pure (record shipment { status = status })

abbrev pub outcome : ℕ → Option ℕ → Shipment → RecoveryCase → Outcome
outcome amount task shipment recovery = record {
  refund_amount = amount;
  new_task_id = task;
  outcome_shipment = shipment;
  outcome_recovery = recovery;
}

unfoldable pub cancel_operation : RecoveryOperation
cancel_operation shipment recovery actor reason key = do
  raise_if
      (not (one_of shipment.status (pending_payment ∷ pending_pickup ∷ waiting_for_dropoff ∷ [])))
      shipment_not_cancellable
  amount ← refund_paid_amount shipment actor key
  shipment' ← move shipment cancelled
  recovery' ← finish_case recovery
  cancel_active_tasks shipment.id reason
  cancel_active_for_shipment shipment.id (lit "cancel")
  pure (outcome amount none shipment' recovery')

unfoldable pub interception_operation : RecoveryOperation
interception_operation shipment recovery actor reason key = do
  raise_if
      (not (
        one_of shipment.status (
          picked_up ∷ at_origin_station ∷ in_linehaul ∷ at_destination_station ∷ delivery_assigned
          ∷ out_for_delivery ∷ waiting_for_recipient_pickup ∷ [])))
      interception_not_allowed
  recovery' ← set_status recovery requested
  pure (outcome 0 none shipment recovery')

unfoldable pub redelivery_operation : RecoveryOperation
redelivery_operation shipment recovery actor reason key = do
  raise_if (not (one_of shipment.status (delivery_assigned ∷ out_for_delivery ∷ [])))
      redelivery_not_allowed
  destination ← or_raise shipment.destination_station_id destination_station_required
  cancel_active_delivery_tasks shipment.id reason
  task ← add_task shipment.id destination delivery
  start_recovery_stage shipment.id "DELIVERY_REDELIVERY"
  shipment' ← move shipment delivery_assigned
  recovery' ← finish_case recovery
  pure (outcome 0 (some task.task_id) shipment' recovery')

unfoldable pub convert_to_pickup_operation : RecoveryOperation
convert_to_pickup_operation shipment recovery actor reason key = do
  raise_if
      (not (
        one_of shipment.status
          (at_destination_station ∷ delivery_assigned ∷ out_for_delivery ∷ [])))
      convert_to_pickup_not_allowed
  cancel_active_delivery_tasks shipment.id reason
  shipment' ←
      move (record shipment { delivery_method = station_pickup }) waiting_for_recipient_pickup
  start_recovery_stage shipment.id "PICKUP_AT_STATION"
  recovery' ← finish_case recovery
  pure (outcome 0 none shipment' recovery')

unfoldable pub approve_return_operation : RecoveryOperation
approve_return_operation shipment recovery actor reason key = do
  raise_if (one_of shipment.status (pending_payment ∷ cancelled ∷ delivered ∷ []))
      return_not_allowed
  shipment' ← move shipment return_approved
  start_recovery_stage shipment.id "RETURN"
  recovery' ← set_status recovery approved
  pure (outcome 0 none shipment' recovery')

-- The leg back, from the destination to the origin, when the destination is known.
abbrev start_return_leg : Shipment → Option ℕ → Action (Unit {0})
start_return_leg shipment none = pure tt
start_return_leg shipment (some destination) = do
  leg_id ← new_id
  now ← gets (λ s. s.now)
  let leg : TransportLeg = record {
    leg_id = leg_id;
    leg_shipment = shipment.id;
    leg_origin = destination;
    leg_destination = shipment.origin_station_id;
    leg_status = in_transit;
    leg_started_at = some now;
    arrived_at = none;
  }
  modify (λ s. record s { legs = s.legs ++ leg ∷ [] })

-- The start of a leg, which every leg has.
abbrev leg_order : TransportLeg → ℕ
leg_order l = elim l.leg_started_at [ none ↦ 0 | some t ↦ ℕ.suc t ]

unfoldable pub latest_leg : ℕ → List TransportLeg → Option TransportLeg
latest_leg shipment_id legs =
    latest_by leg_order
      (select (λ l. (l.leg_shipment == shipment_id) && leg_running l.leg_status) legs)

abbrev close_leg : Option TransportLeg → ℕ → Action (Unit {0})
close_leg none now = pure tt
close_leg (some leg) now = save_leg (record leg { leg_status = arrived; arrived_at = some now })

-- The two steps of `_advance_return_operation`.
unfoldable pub depart_return : RecoveryOperation
depart_return shipment recovery actor reason key = do
  shipment' ← move shipment in_return
  start_return_leg shipment shipment.destination_station_id
  recovery' ← set_status recovery in_progress
  pure (outcome 0 none shipment' recovery')

unfoldable pub complete_return : RecoveryOperation
complete_return shipment recovery actor reason key = do
  shipment' ← move shipment returned
  recovery' ← finish_case recovery
  amount ← refund_paid_amount shipment actor key
  cancel_active_for_shipment shipment.id (lit "return_completed")
  leg ← gets (λ s. latest_leg shipment.id s.legs)
  now ← gets (λ s. s.now)
  close_leg leg now
  pure (outcome amount none shipment' recovery')

unfoldable pub advance_return_operation : RecoveryOperation
advance_return_operation shipment recovery actor reason key = elim shipment.status [
  | return_approved ↦ depart_return shipment recovery actor reason key
  | in_return ↦ complete_return shipment recovery actor reason key
  | _ ↦ raise return_not_advanceable
]
