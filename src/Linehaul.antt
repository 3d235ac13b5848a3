-- ===== src/Linehaul.antt =====
-- backend/src/yitu/shipments/linehaul.py: the departure from the origin and the arrival at the
-- destination.
use Prim.Native.String.{String}
use yitu.Base.{ℕ, Option, none, some, [], ◌∷◌, ◌++◌, not, ◌||◌}
use yitu.Base.Table.{put_row}
use yitu.Dispatch.{add_task}
use yitu.Identity.{role_is, require_role, require_station_scope}
use yitu.Platform.Errors.{
  forbidden_role, origin_station_required, destination_station_required,
  invalid_shipment_transition,
}
use yitu.Platform.Json.{Key}
use yitu.Shipments.Control.{lock_and_assert_fulfillment_allowed, active_leg}
use yitu.Shipments.Enums.{
  Role, station_operator, operations_admin, ShipmentStatus, in_linehaul, at_destination_station,
  DeliveryMethod, home_delivery, station_pickup,
}
use yitu.Shipments.Transition.{transition}
use yitu.Store.Rows.{CurrentUser, Shipment, TransportLeg, in_transit, arrived, delivery}
use yitu.Store.Session.{Action, new_id, modify, gets, or_raise, raise_if, pure, ◌>>=◌, ◌>>◌}

pub record LinehaulResult : Type 0 where
  pub result_shipment : ℕ
  pub result_status : ShipmentStatus
  pub next_action : Option String

unfoldable pub dispatch_linehaul : ℕ → CurrentUser → Key → Action LinehaulResult
dispatch_linehaul shipment_id actor request_id = do
  require_role station_operator actor
  shipment ← lock_and_assert_fulfillment_allowed shipment_id
  origin ← or_raise shipment.origin_station_id origin_station_required
  require_station_scope origin actor
  transition shipment in_linehaul actor "dispatch_linehaul" request_id
  leg_id ← new_id
  now ← gets (λ s. s.now)
  let leg : TransportLeg = record {
    leg_id = leg_id;
    leg_shipment = shipment.id;
    leg_origin = origin;
    leg_destination = shipment.destination_station_id;
    leg_status = in_transit;
    leg_started_at = some now;
    arrived_at = none;
  }
  modify (λ s. record s { legs = s.legs ++ leg ∷ [] })
  pure (record { result_shipment = shipment.id; result_status = in_linehaul; next_action = none })

-- The scope that the arrival asks for: a station's operator belongs to the destination.
unfoldable pub require_arrival_scope : Role → Shipment → CurrentUser → Action (Unit {0})
require_arrival_scope station_operator shipment actor = do
  destination ← or_raise shipment.destination_station_id destination_station_required
  require_station_scope destination actor
require_arrival_scope _ shipment actor = pure tt

abbrev pub save_leg : TransportLeg → Action (Unit {0})
save_leg leg = modify λ s. record s { legs = put_row (λ (l : TransportLeg). l.leg_id) leg s.legs }

-- What follows the arrival, by the delivery method.
unfoldable pub next_step : DeliveryMethod → Shipment → Action String
next_step home_delivery shipment = do
  destination ← or_raise shipment.destination_station_id destination_station_required
  add_task shipment.id destination delivery
  pure "CREATE_DELIVERY_TASK"
next_step station_pickup shipment = pure "ISSUE_PICKUP_CREDENTIAL"

unfoldable pub arrive_destination : ℕ → CurrentUser → Key → Action LinehaulResult
arrive_destination shipment_id actor request_id = do
  raise_if (not (role_is actor.role operations_admin || role_is actor.role station_operator))
      forbidden_role
  shipment ← lock_and_assert_fulfillment_allowed shipment_id
  require_arrival_scope actor.role shipment actor
  leg ← or_raise (← gets (λ s. active_leg shipment.id s.legs)) invalid_shipment_transition
  transition shipment at_destination_station actor "arrive_destination" request_id
  now ← gets (λ s. s.now)
  save_leg (record leg { leg_status = arrived; arrived_at = some now })
  next_action ← next_step shipment.delivery_method shipment
  pure (record {
    result_shipment = shipment.id;
    result_status = at_destination_station;
    next_action = some next_action;
  })
