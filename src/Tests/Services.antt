-- ===== src/Tests/Services.antt =====
-- The services of the origin, the holds and the transitions, at examples.
use yitu.Base.{◌≡◌, ◌⊎◌, refl, true, false, none, some, List, [], ◌∷◌}
use yitu.Base.Table.{by_key, put_row}
use yitu.Blocked.{IsRefused, blocked_stations, blocked_last_mile}
use yitu.Dispatch.{accept_task, accept_dropoff, confirm_origin_arrival, get_task, claim_task}
use yitu.Dispatch.Accept.{accept_once}
use yitu.LastMile.{
  start_delivery, confirm_delivery, issue_pickup_credential, verify_station_pickup, find_proof,
}
use yitu.Linehaul.{dispatch_linehaul, arrive_destination}
use yitu.Platform.Audit.{audit_record}
use yitu.Platform.Errors.{ok}
use yitu.Platform.Json.{lit}
use yitu.Platform.Outbox.{append}
use yitu.Shipments.Control.{
  lock_shipment, lock_and_assert_fulfillment_allowed, is_blocked, place_exception_hold,
  release_exception_holds, find_source,
}
use yitu.Shipments.Enums.{pending_pickup, pickup_assigned, picked_up, home_delivery}
use yitu.Shipments.StateMachine
use yitu.Shipments.Transition.Effects.{
  FactsOnly, with_status, transition_effect, transition_idempotent,
}
use yitu.Shipments.Transition.{transition, record_transition, transition_key, transition_message}
use yitu.Sla.Service.{sync_shipment_transition, finish_stages}
use yitu.Store.Queries.{find_task, find_shipment, put_task, put_shipment}
use yitu.Store.Rows.{ShipmentHold, TrackingEvent, pickup, available, accepted}
use yitu.Store.Session.{Session}
use yitu.Tests.Data.{bob, eve, operator, parcel, task, hold, store, toy_hash, toy_verify}
use yitu.Tracking.{find_event, append_tracking_event, add_event, latest_sequence}
use yitu.Tracking.Order.{IsNumbered, append_tracking_event-IsNumbered}

abbrev open_task : Session
open_task = store (parcel pending_pickup home_delivery) (task pickup available ∷ []) [] []

abbrev held : Session
held = store (parcel picked_up home_delivery) (task pickup available ∷ []) (hold ∷ []) []

abbrev assigned : Session
assigned =
    (transition (parcel pending_pickup home_delivery) pickup_assigned bob "assign" (lit "r")
      open_task).1

effect_example :
    (assigned ≡ open_task)
    ⊎ ((StateMachine.transition pending_pickup pickup_assigned ≡ ok pickup_assigned)
        × FactsOnly
            (with_status (parcel pending_pickup home_delivery) pickup_assigned open_task)
            assigned)
effect_example =
    transition_effect (parcel pending_pickup home_delivery) pickup_assigned bob "assign" (lit "r")
      open_task

-- The event of that transition.
abbrev assigned_event : TrackingEvent
assigned_event = record {
  event_id = 100;
  event_shipment = 5;
  sequence_no = 1;
  event_type = "assign";
  message = transition_message pickup_assigned;
  visible_to_customer = true;
  event_key = transition_key 5 "assign" (lit "r");
  occurred_at = 1000;
}

assigned-ok :
    transition
      (parcel pending_pickup home_delivery)
      pickup_assigned
      bob
      "assign"
      (lit "r")
      open_task
    ≡ (ok assigned_event, assigned)
unfolding StateMachine.transition transition record_transition sync_shipment_transition
    finish_stages by_key put_row find_shipment put_shipment find_event append_tracking_event
    add_event latest_sequence append audit_record
assigned-ok = refl

idempotent_example :
    transition (parcel picked_up home_delivery) pickup_assigned bob "assign" (lit "r") assigned
    ≡ (ok assigned_event, assigned)
idempotent_example =
    transition_idempotent (parcel pending_pickup home_delivery) pickup_assigned bob "assign"
      (lit "r") open_task (parcel picked_up home_delivery) refl assigned-ok

sequence_example :
    IsNumbered 5 0 (append_tracking_event 5 "scan" (lit "m") (lit "k") open_task).1.tracking
sequence_example = append_tracking_event-IsNumbered 5 5 "scan" (lit "m") (lit "k") open_task tt

abbrev after_accept : Session
after_accept = (accept_task 30 bob (lit "r") open_task).1

accept-ok : accept_task 30 bob (lit "r") open_task ≡ (ok (task pickup accepted), after_accept)
unfolding accept_task get_task claim_task lock_shipment lock_and_assert_fulfillment_allowed
    is_blocked StateMachine.transition transition record_transition sync_shipment_transition
    finish_stages by_key put_row find_task find_shipment put_task put_shipment find_event
    append_tracking_event add_event latest_sequence append audit_record
accept-ok = refl

accept_once_example : IsRefused (accept_task 30 eve (lit "q")) after_accept
accept_once_example = accept_once 30 bob (lit "r") open_task eve (lit "q") accept-ok

held-task : find_task 30 held.tasks ≡ some (task pickup available)
unfolding find_task by_key
held-task = refl

held-blocked : is_blocked 5 held.holds ≡ true
unfolding is_blocked
held-blocked = refl

unsigned : find_proof 5 held.proofs ≡ none
unfolding find_proof
unsigned = refl

blocked_stations_example :
    IsRefused (accept_dropoff 5 operator (lit "r")) held
    × IsRefused (confirm_origin_arrival 5 operator (lit "r")) held
    × IsRefused (dispatch_linehaul 5 operator (lit "r")) held
    × IsRefused (arrive_destination 5 operator (lit "r")) held
blocked_stations_example = blocked_stations 5 operator (lit "r") held held-blocked

blocked_last_mile_example :
    IsRefused (start_delivery 5 bob (lit "r")) held
    × IsRefused (confirm_delivery 5 bob [] (lit "r")) held
    × IsRefused (issue_pickup_credential toy_hash toy_verify [] 5 bob (lit "r") (7 ∷ []) 1800) held
    × IsRefused (verify_station_pickup toy_hash toy_verify [] 5 bob (7 ∷ []) (lit "r")) held
blocked_last_mile_example =
    blocked_last_mile 5 bob (lit "r") held [] (7 ∷ []) [] 1800 toy_hash toy_verify held-blocked
      unsigned

abbrev after_hold : Session
after_hold = (place_exception_hold 5 "CASE" 41 (lit "lost") operator (lit "h") open_task).1

abbrev new_hold : ShipmentHold
new_hold = record {
  hold_id = 100;
  hold_shipment = 5;
  source_type = "CASE";
  source_id = 41;
  frozen_status = pending_pickup;
  reason = lit "lost";
  active = true;
  placed_by = 4;
  placed_at = 1000;
  released_by = none;
  released_at = none;
  place_idempotency_key = lit "h";
  release_idempotency_key = none;
}

hold-ok :
    place_exception_hold 5 "CASE" 41 (lit "lost") operator (lit "h") open_task
    ≡ (ok new_hold, after_hold)
unfolding place_exception_hold lock_shipment find_shipment by_key find_source
hold-ok = refl

no-source : find_source "CASE" 41 open_task.holds ≡ none
unfolding find_source
no-source = refl

abbrev released_holds : List ShipmentHold
released_holds =
    record hold {
      active = false;
      released_by = some 4;
      released_at = some 1000;
      release_idempotency_key = some (lit "u");
    }
    ∷ []

abbrev after_release : Session
after_release = (release_exception_holds 5 "EXCEPTION_CASE" (41 ∷ []) operator (lit "u") held).1

release-ok :
    release_exception_holds 5 "EXCEPTION_CASE" (41 ∷ []) operator (lit "u") held
    ≡ (ok released_holds, after_release)
unfolding release_exception_holds lock_shipment find_shipment by_key
release-ok = refl
