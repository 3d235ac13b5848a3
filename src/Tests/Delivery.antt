-- ===== src/Tests/Delivery.antt =====
-- Recovery and the last mile, at examples.
use yitu.Base.{◌+◌, ◌≡◌, ◌≤◌, ◌<◌, refl, true, false, none, some, [], ◌∷◌, arith}
use yitu.Base.Table.{by_key}
use yitu.Dispatch.{accept_task}
use yitu.LastMile.{
  confirm_delivery, sign_delivery, delivery_task, find_delivery_task, verify_station_pickup,
  sign_pickup, check_credential, require_station_pickup, open_credential, find_proof, mask_name,
}
use yitu.LastMile.Proofs.{signed_once, pickup_signed, wrong_code_forgotten}
use yitu.Payments.{paid_total}
use yitu.Platform.Audit.{audit_record}
use yitu.Platform.Errors.{ok, is_ok}
use yitu.Platform.Json.{lit}
use yitu.Platform.Outbox.{append}
use yitu.Returns.Operations.{
  Outcome, cancel_operation, redelivery_operation, convert_to_pickup_operation, refund_paid_amount,
  refund_total, first_payment, completed_case, outcome,
}
use yitu.Returns.Refunds.{cancel_refunds_all}
use yitu.Returns.Tasks.{
  open_deliveries, redelivery_task, redelivery_one_task, redelivered_task_stuck,
}
use yitu.Shipments.Control.{lock_shipment, lock_and_assert_fulfillment_allowed, is_blocked}
use yitu.Shipments.Enums.{
  pending_pickup, delivery_assigned, out_for_delivery, waiting_for_recipient_pickup, cancelled,
  home_delivery, station_pickup,
}
use yitu.Shipments.StateMachine
use yitu.Shipments.Transition.{transition, record_transition, transition_key}
use yitu.Sla.Service.{
  sync_shipment_transition, finish_stages, find_stage, running_of, complete_all,
  cancel_active_for_shipment, start_recovery_stage, latest_instance,
}
use yitu.Store.Queries.{find_task, find_shipment}
use yitu.Store.Rows.{
  ProofOfDelivery, pickup, delivery, available, accepted, redelivery, cancel, convert_to_pickup,
}
use yitu.Store.Session.{Session, transact}
use yitu.Tests.Data.{
  alice, bob, eve, operator, parcel, task, credential, paid, recovery, store, toy_hash, toy_verify,
}
use yitu.Tracking.{find_event, append_tracking_event, add_event, latest_sequence}

abbrev cancelled_outcome : Outcome
cancelled_outcome =
    outcome 1200 none (parcel cancelled home_delivery) (completed_case (recovery cancel) 1000)

abbrev open_pickup_task : Session
open_pickup_task =
    store (parcel pending_pickup home_delivery) (task pickup accepted ∷ []) [] (paid ∷ [])

abbrev after_cancel : Session
after_cancel =
    (cancel_operation (parcel pending_pickup home_delivery) (recovery cancel) alice (lit "why")
      (lit "k") open_pickup_task).1

cancel-ok :
    cancel_operation
      (parcel pending_pickup home_delivery)
      (recovery cancel)
      alice
      (lit "why")
      (lit "k")
      open_pickup_task
    ≡ (ok cancelled_outcome, after_cancel)
unfolding cancel_operation refund_paid_amount paid_total refund_total first_payment
    cancel_active_for_shipment
cancel-ok = refl

refunded_before : refund_total 5 open_pickup_task.payments ≤ paid_total 5 open_pickup_task.payments
unfolding refund_total paid_total
refunded_before = omega arith

refund_example :
    (refund_total 5 after_cancel.payments ≡ paid_total 5 after_cancel.payments)
    × (paid_total 5 after_cancel.payments ≡ paid_total 5 open_pickup_task.payments)
    × (1200 + refund_total 5 open_pickup_task.payments ≡ paid_total 5 open_pickup_task.payments)
refund_example =
    cancel_refunds_all (parcel pending_pickup home_delivery) (recovery cancel) alice (lit "why")
      (lit "k") open_pickup_task refunded_before cancel-ok

abbrev on_the_road : Session
on_the_road = store (parcel out_for_delivery home_delivery) (task delivery accepted ∷ []) [] []

abbrev redelivered_outcome : Outcome
redelivered_outcome =
    outcome 0 (some 100) (parcel delivery_assigned home_delivery)
      (completed_case (recovery redelivery) 1000)

abbrev after_redelivery : Session
after_redelivery =
    (redelivery_operation (parcel out_for_delivery home_delivery) (recovery redelivery) alice
      (lit "why") (lit "k") on_the_road).1

redelivery-ok :
    redelivery_operation
      (parcel out_for_delivery home_delivery)
      (recovery redelivery)
      alice
      (lit "why")
      (lit "k")
      on_the_road
    ≡ (ok redelivered_outcome, after_redelivery)
unfolding redelivery_operation start_recovery_stage find_stage latest_instance
redelivery-ok = refl

redelivery_example :
    (open_deliveries 5 after_redelivery.tasks
      ≡ redelivery_task
          (parcel out_for_delivery home_delivery)
          (recovery redelivery)
          alice
          (lit "why")
          (lit "k")
          on_the_road
          10
        ∷ [])
    × (redelivered_outcome.new_task_id ≡ some 100)
redelivery_example =
    redelivery_one_task (parcel out_for_delivery home_delivery) (recovery redelivery) alice
      (lit "why") (lit "k") on_the_road refl redelivery-ok

abbrev converted_outcome : Outcome
converted_outcome =
    outcome 0 none (parcel waiting_for_recipient_pickup station_pickup)
      (completed_case (recovery convert_to_pickup) 1000)

abbrev after_conversion : Session
after_conversion =
    (convert_to_pickup_operation (parcel out_for_delivery home_delivery)
      (recovery convert_to_pickup) alice (lit "why") (lit "k") on_the_road).1

convert-ok :
    convert_to_pickup_operation
      (parcel out_for_delivery home_delivery)
      (recovery convert_to_pickup)
      alice
      (lit "why")
      (lit "k")
      on_the_road
    ≡ (ok converted_outcome, after_conversion)
unfolding convert_to_pickup_operation start_recovery_stage find_stage latest_instance
convert-ok = refl

abbrev reassigned : Session
reassigned = store (parcel delivery_assigned home_delivery) (task delivery available ∷ []) [] []

found-task : find_task 30 reassigned.tasks ≡ some (task delivery available)
unfolding find_task by_key
found-task = refl

found-reassigned :
    find_shipment 5 reassigned.shipments ≡ some (parcel delivery_assigned home_delivery)
unfolding find_shipment by_key
found-reassigned = refl

not-recorded :
    find_event 5 (transition_key 5 "assign_delivery" (lit "r")) reassigned.tracking ≡ none
unfolding find_event
not-recorded = refl

stuck_example : is_ok (accept_task 30 bob (lit "r") reassigned).0 ≡ false
stuck_example =
    redelivered_task_stuck 30 bob (lit "r") reassigned found-task refl found-reassigned refl
      not-recorded

abbrev door_proof : ProofOfDelivery
door_proof = record {
  proof_id = 103;
  proof_shipment = 5;
  proof_method = home_delivery;
  signer_name = mask_name (65 ∷ 66 ∷ []);
  verification_method = "COURIER_CONFIRMATION";
  actor_id = 2;
  proof_station = some 10;
  proof_key = lit "r";
  signed_at = 1000;
}

abbrev after_signing : Session
after_signing = (confirm_delivery 5 bob (65 ∷ 66 ∷ []) (lit "r") on_the_road).1

signing-ok :
    confirm_delivery 5 bob (65 ∷ 66 ∷ []) (lit "r") on_the_road ≡ (ok door_proof, after_signing)
unfolding confirm_delivery sign_delivery delivery_task find_delivery_task find_proof lock_shipment
    lock_and_assert_fulfillment_allowed is_blocked StateMachine.transition transition
    record_transition sync_shipment_transition finish_stages running_of complete_all by_key
    find_shipment find_event append_tracking_event add_event latest_sequence append audit_record
signing-ok = refl

signed_once_example :
    (confirm_delivery 5 eve [] (lit "q") after_signing ≡ (ok door_proof, after_signing))
    × (verify_station_pickup toy_hash toy_verify [] 5 eve (7 ∷ []) (lit "q") after_signing
        ≡ (ok door_proof, after_signing))
signed_once_example =
    signed_once 5 bob (65 ∷ 66 ∷ []) (lit "r") on_the_road eve [] (7 ∷ []) [] (lit "q") toy_hash
      toy_verify signing-ok

abbrev at_counter : Session
at_counter = store (parcel waiting_for_recipient_pickup station_pickup) [] [] []

found-counter :
    find_shipment 5 at_counter.shipments ≡ some (parcel waiting_for_recipient_pickup station_pickup)
unfolding find_shipment by_key
found-counter = refl

found-credential : open_credential 5 at_counter.credentials ≡ some credential
unfolding open_credential
found-credential = refl

no-proof : find_proof 5 at_counter.proofs ≡ none
unfolding find_proof
no-proof = refl

abbrev station_proof : ProofOfDelivery
station_proof = record {
  proof_id = 103;
  proof_shipment = 5;
  proof_method = station_pickup;
  signer_name = 32593 ∷ 28857 ∷ 33258 ∷ 21462 ∷ [];
  verification_method = "PICKUP_CODE";
  actor_id = 4;
  proof_station = some 10;
  proof_key = lit "r";
  signed_at = 1000;
}

abbrev after_pickup : Session
after_pickup =
    (verify_station_pickup toy_hash toy_verify [] 5 operator (123 ∷ []) (lit "r") at_counter).1

pickup-ok :
    verify_station_pickup toy_hash toy_verify [] 5 operator (123 ∷ []) (lit "r") at_counter
    ≡ (ok station_proof, after_pickup)
unfolding verify_station_pickup sign_pickup check_credential require_station_pickup open_credential
    find_proof lock_shipment lock_and_assert_fulfillment_allowed is_blocked StateMachine.transition
    transition record_transition sync_shipment_transition finish_stages running_of complete_all
    by_key find_shipment find_event append_tracking_event add_event latest_sequence append
    audit_record
pickup-ok = refl

pickup_example :
    (find_proof 5 after_pickup.proofs ≡ some station_proof)
    × (toy_verify credential.code_hash (123 ∷ []) ≡ true)
    × (credential.locked_at ≡ none)
    × (at_counter.now < credential.expires_at)
pickup_example =
    pickup_signed toy_hash toy_verify [] 5 operator (123 ∷ []) (lit "r") at_counter found-counter
      found-credential no-proof pickup-ok

wrong_code_example :
    (is_ok
        (verify_station_pickup toy_hash toy_verify [] 5 operator (99 ∷ []) (lit "r") at_counter).0
      ≡ false)
    × ((transact
          (verify_station_pickup toy_hash toy_verify [] 5 operator (99 ∷ []) (lit "r"))
          at_counter).1
        ≡ at_counter)
wrong_code_example =
    wrong_code_forgotten toy_hash toy_verify [] 5 operator (99 ∷ []) (lit "r") at_counter
      found-counter found-credential no-proof refl
