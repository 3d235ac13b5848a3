-- ===== src/Shipments/StateMachine.antt =====
-- backend/src/yitu/shipments/state_machine.py: the table of shipment transitions, the actions that
-- a status offers, and the check `transition`.
pub mod Paths
use yitu.Base.{Bool, List, [], ◌∷◌, any_of, if◌then◌else◌}
use yitu.Platform.Errors.{Result, ok, err, invalid_shipment_transition}
use yitu.Shipments.Enums.{
  ShipmentStatus, pending_payment, awaiting_supplement, pending_pickup, pickup_assigned,
  waiting_for_dropoff, picked_up, at_origin_station, in_linehaul, at_destination_station,
  delivery_assigned, out_for_delivery, waiting_for_recipient_pickup, delivered, cancelled,
  return_approved, in_return, returned, status_eq,
}

-- `_TRANSITIONS`
abbrev pub transitions : ShipmentStatus → List ShipmentStatus
transitions pending_payment = pending_pickup ∷ waiting_for_dropoff ∷ cancelled ∷ []
transitions awaiting_supplement = pickup_assigned ∷ picked_up ∷ cancelled ∷ []
transitions pending_pickup = pickup_assigned ∷ cancelled ∷ []
transitions pickup_assigned = picked_up ∷ []
transitions waiting_for_dropoff = at_origin_station ∷ cancelled ∷ []
transitions picked_up = at_origin_station ∷ []
transitions at_origin_station = in_linehaul ∷ []
transitions in_linehaul = at_destination_station ∷ []
transitions at_destination_station =
    delivery_assigned ∷ waiting_for_recipient_pickup ∷ return_approved ∷ []
transitions delivery_assigned =
    out_for_delivery ∷ waiting_for_recipient_pickup ∷ return_approved ∷ []
transitions out_for_delivery =
    delivered ∷ delivery_assigned ∷ waiting_for_recipient_pickup ∷ return_approved ∷ []
transitions waiting_for_recipient_pickup = delivered ∷ []
transitions delivered = []
transitions cancelled = []
transitions return_approved = in_return ∷ []
transitions in_return = returned ∷ []
transitions returned = []

-- The names of the business actions.
pub data ActionName : Type 0 where
  confirm_payment cancel pay_supplement assign_pickup confirm_pickup : ActionName
  confirm_origin_arrival dispatch_linehaul arrive_destination assign_delivery : ActionName
  issue_pickup_credential approve_return start_delivery convert_to_pickup : ActionName
  confirm_delivery redeliver verify_station_pickup advance_return : ActionName

-- `_ACTIONS` and `allowed_actions`
pub allowed_actions : ShipmentStatus → List ActionName
allowed_actions pending_payment = confirm_payment ∷ cancel ∷ []
allowed_actions awaiting_supplement = pay_supplement ∷ cancel ∷ []
allowed_actions pending_pickup = assign_pickup ∷ cancel ∷ []
allowed_actions pickup_assigned = confirm_pickup ∷ []
allowed_actions waiting_for_dropoff = confirm_origin_arrival ∷ cancel ∷ []
allowed_actions picked_up = confirm_origin_arrival ∷ []
allowed_actions at_origin_station = dispatch_linehaul ∷ []
allowed_actions in_linehaul = arrive_destination ∷ []
allowed_actions at_destination_station =
    assign_delivery ∷ issue_pickup_credential ∷ approve_return ∷ []
allowed_actions delivery_assigned = start_delivery ∷ convert_to_pickup ∷ approve_return ∷ []
allowed_actions out_for_delivery =
    confirm_delivery ∷ redeliver ∷ convert_to_pickup ∷ approve_return ∷ []
allowed_actions waiting_for_recipient_pickup = verify_station_pickup ∷ []
allowed_actions delivered = []
allowed_actions cancelled = []
allowed_actions return_approved = advance_return ∷ []
allowed_actions in_return = advance_return ∷ []
allowed_actions returned = []

abbrev pub one_of : ShipmentStatus → List ShipmentStatus → Bool
one_of s = any_of (λ t. status_eq s t)

unfoldable pub transition : ShipmentStatus → ShipmentStatus → Result ShipmentStatus
transition current target =
    if one_of target (transitions current) then ok target else err invalid_shipment_transition
