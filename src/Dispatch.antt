-- ===== src/Dispatch.antt =====
-- backend/src/yitu/dispatch/service.py: the pickup at the sender and the hand-over to the origin.
pub mod Accept
use Prim.Native.String.{String}
use yitu.Base.{
  ℕ, true, false, ◌&&◌, Bool, Option, none, some, List, [], ◌∷◌, ◌++◌, select, opt_eq, not, ◌==◌,
  ◌||◌,
}
use yitu.Identity.{role_is, require_role, require_station_scope}
use yitu.Platform.Errors.{
  pickup_task_not_required, task_not_found, task_already_assigned, task_not_accepted,
  forbidden_task_owner, origin_station_required, shipment_not_found,
}
use yitu.Platform.Json.{Key}
use yitu.Shipments.Control.{lock_shipment, lock_and_assert_fulfillment_allowed, type_eq}
use yitu.Shipments.Enums.{
  ShipmentStatus, pickup_assigned, delivery_assigned, picked_up, at_origin_station, PickupMethod,
  door_pickup, station_dropoff, courier, station_operator,
}
use yitu.Shipments.Transition.{transition}
use yitu.Store.Queries.{find_task, put_task}
use yitu.Store.Rows.{
  CurrentUser, Shipment, CourierTask, CourierTaskType, CourierTaskStatus, pickup, delivery,
  available, accepted, completed, task_cancelled,
}
use yitu.Store.Session.{Action, new_id, modify, gets, or_raise, raise_if, pure, ◌>>=◌, ◌>>◌}

abbrev pub is_door_pickup : PickupMethod → Bool
is_door_pickup door_pickup = true
is_door_pickup station_dropoff = false

abbrev pub is_available : CourierTaskStatus → Bool
is_available available = true
is_available _ = false

abbrev pub is_accepted : CourierTaskStatus → Bool
is_accepted accepted = true
is_accepted _ = false

-- A new task that waits for a courier.
abbrev pub add_task : ℕ → ℕ → CourierTaskType → Action CourierTask
add_task shipment_id station_id task_type = do
  task_id ← new_id
  let task : CourierTask = record {
    task_id = task_id;
    task_shipment = shipment_id;
    station_id = station_id;
    task_type = task_type;
    task_status = available;
    assignee_id = none;
    closed_reason = none;
    closed_at = none;
    replaced_by_task_id = none;
  }
  modify (λ s. record s { tasks = s.tasks ++ task ∷ [] })
  pure task

abbrev pub save_task : CourierTask → Action (Unit {0})
save_task task = modify (λ s. record s { tasks = put_task task s.tasks })

unfoldable pub create_pickup_task : Shipment → ℕ → Action CourierTask
create_pickup_task shipment station_id = do
  raise_if (not (is_door_pickup shipment.pickup_method)) pickup_task_not_required
  add_task shipment.id station_id pickup

unfoldable pub get_task : ℕ → Action CourierTask
get_task task_id = do or_raise (← gets (λ s. find_task task_id s.tasks)) task_not_found

abbrev pub accept_target : CourierTaskType → ShipmentStatus
accept_target pickup = pickup_assigned
accept_target delivery = delivery_assigned

abbrev pub accept_action : CourierTaskType → String
accept_action pickup = "assign_pickup"
accept_action delivery = "assign_delivery"

-- `update(CourierTask).where(id, AVAILABLE).values(ACCEPTED, actor).returning(CourierTask)`
unfoldable pub claim_task : ℕ → CurrentUser → Action CourierTask
unfolding get_task
claim_task task_id actor = do
  task ← get_task task_id
  let claimed : CourierTask = record task {
    task_status = accepted;
    assignee_id = some actor.user_id;
  }
  raise_if (not (is_available task.task_status)) task_already_assigned
  save_task claimed
  pure claimed

unfoldable pub accept_task : ℕ → CurrentUser → Key → Action CourierTask
unfolding get_task
accept_task task_id actor request_id = do
  require_role courier actor
  task ← get_task task_id
  require_station_scope task.station_id actor
  lock_and_assert_fulfillment_allowed task.task_shipment
  claimed ← claim_task task_id actor
  shipment ← lock_shipment claimed.task_shipment
  transition shipment (accept_target claimed.task_type) actor (accept_action claimed.task_type)
      request_id
  pure claimed

unfoldable pub confirm_pickup : ℕ → CurrentUser → Key → Action CourierTask
unfolding get_task
confirm_pickup task_id actor request_id = do
  task ← get_task task_id
  raise_if (not (role_is actor.role courier) || not (opt_eq task.assignee_id (some actor.user_id)))
      forbidden_task_owner
  raise_if (not (is_accepted task.task_status)) task_not_accepted
  shipment ← lock_and_assert_fulfillment_allowed task.task_shipment
  save_task (record task { task_status = completed })
  transition shipment picked_up actor "confirm_pickup" request_id
  pure (record task { task_status = completed })

unfoldable pub require_origin_operator : ℕ → CurrentUser → Action Shipment
require_origin_operator shipment_id actor = do
  require_role station_operator actor
  shipment ← lock_shipment shipment_id
  origin ← or_raise shipment.origin_station_id origin_station_required
  require_station_scope origin actor
  pure shipment

-- The part that `accept_dropoff` and `confirm_origin_arrival` have in common.
unfoldable pub reach_origin : String → ℕ → CurrentUser → Key → Action Shipment
unfolding require_origin_operator
reach_origin action shipment_id actor request_id = do
  shipment ← require_origin_operator shipment_id actor
  lock_and_assert_fulfillment_allowed shipment.id
  transition shipment at_origin_station actor action request_id
  lock_shipment shipment_id

unfoldable pub accept_dropoff : ℕ → CurrentUser → Key → Action Shipment
accept_dropoff = reach_origin "accept_dropoff"

unfoldable pub confirm_origin_arrival : ℕ → CurrentUser → Key → Action Shipment
confirm_origin_arrival = reach_origin "confirm_origin_arrival"

abbrev pub is_pickup_of : ℕ → CourierTask → Bool
is_pickup_of shipment_id t = (t.task_shipment == shipment_id) && type_eq t.task_type pickup

abbrev pub list_pickup_tasks : ℕ → Action (List CourierTask)
list_pickup_tasks shipment_id = gets (λ s. select (is_pickup_of shipment_id) s.tasks)
