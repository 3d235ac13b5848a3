-- ===== src/Shipments/Transition.antt =====
-- backend/src/yitu/shipments/service.py, `ShipmentTransitionService`: a status change with its
-- track, its notification and its audit entry.
pub mod Effects
pub mod Frame
use Prim.Native.String.{String}
use yitu.Base.{ℕ, none, some, [], ◌∷◌}
use yitu.Platform.Audit.{audit_record}
use yitu.Platform.Errors.{Result}
use yitu.Platform.Json.{Key, lit, ident, ◌⊹◌, Object, str, fields}
use yitu.Platform.Outbox.{append}
use yitu.Shipments.Control.{save_shipment}
use yitu.Shipments.Enums.{
  ShipmentStatus, pending_payment, awaiting_supplement, pending_pickup, pickup_assigned,
  waiting_for_dropoff, picked_up, at_origin_station, in_linehaul, at_destination_station,
  delivery_assigned, out_for_delivery, waiting_for_recipient_pickup, delivered, cancelled,
  return_approved, in_return, returned,
}
use yitu.Shipments.StateMachine
use yitu.Sla.Service.{sync_shipment_transition}
use yitu.Store.Rows.{CurrentUser, Shipment, TrackingEvent}
use yitu.Store.Session.{Action, gets, pure, ◌>>=◌, ◌>>◌}
use yitu.Tracking.{find_event, append_tracking_event}

-- `status.value`
abbrev pub status_text : ShipmentStatus → String
status_text pending_payment = "PENDING_PAYMENT"
status_text awaiting_supplement = "AWAITING_SUPPLEMENT"
status_text pending_pickup = "PENDING_PICKUP"
status_text pickup_assigned = "PICKUP_ASSIGNED"
status_text waiting_for_dropoff = "WAITING_FOR_DROPOFF"
status_text picked_up = "PICKED_UP"
status_text at_origin_station = "AT_ORIGIN_STATION"
status_text in_linehaul = "IN_LINEHAUL"
status_text at_destination_station = "AT_DESTINATION_STATION"
status_text delivery_assigned = "DELIVERY_ASSIGNED"
status_text out_for_delivery = "OUT_FOR_DELIVERY"
status_text waiting_for_recipient_pickup = "WAITING_FOR_RECIPIENT_PICKUP"
status_text delivered = "DELIVERED"
status_text cancelled = "CANCELLED"
status_text return_approved = "RETURN_APPROVED"
status_text in_return = "IN_RETURN"
status_text returned = "RETURNED"

abbrev pub lift : {A : Type 0} → Result A → Action A
lift r s = (r, s)

-- f"shipment:{shipment.id}:{action}:{request_id}"
abbrev pub transition_key : ℕ → String → Key → Key
transition_key shipment_id action request_id =
    lit "shipment:" ⊹ ident shipment_id ⊹ lit ":" ⊹ lit action ⊹ lit ":" ⊹ request_id

abbrev pub shipment_key : ℕ → Key
shipment_key shipment_id = lit "shipment:" ⊹ ident shipment_id

abbrev pub status_summary : ShipmentStatus → Object
status_summary status = ("status", str (lit (status_text status))) ∷ []

abbrev pub status_notification : Shipment → ShipmentStatus → Object
status_notification shipment target =
    ("recipient_id", str (ident shipment.owner_id))
    ∷ ("template_code", str (lit "SHIPMENT_STATUS_UPDATED"))
    ∷ (
      "template_data",
      fields (("shipment_no", shipment.shipment_no) ∷ ("status", lit (status_text target)) ∷ []),
    )
    ∷ []

-- f"运单状态已更新为 {target.value}"
abbrev pub transition_message : ShipmentStatus → Key
transition_message target = lit "运单状态已更新为 " ⊹ lit (status_text target)

-- What is written after the status has changed.
unfoldable pub record_transition :
    Shipment → ShipmentStatus → CurrentUser → String → Key → Action TrackingEvent
record_transition shipment target actor action request_id = do
  sync_shipment_transition shipment.id target
  event ←
      append_tracking_event shipment.id action (transition_message target)
        (transition_key shipment.id action request_id)
  append "notification.requested" (shipment_key shipment.id) (status_notification shipment target)
      (lit "notification:" ⊹ ident shipment.id ⊹ lit ":status:" ⊹ lit action ⊹ lit ":" ⊹ request_id)
  audit_record (ident actor.user_id) (lit "shipment." ⊹ lit action) (shipment_key shipment.id)
      (some (status_summary shipment.status)) (some (status_summary target)) none request_id
  pure event

unfoldable pub transition :
    Shipment → ShipmentStatus → CurrentUser → String → Key → Action TrackingEvent
transition shipment target actor action request_id = do
  existing ←
      gets (λ s. find_event shipment.id (transition_key shipment.id action request_id) s.tracking)
  elim existing [
    | some event ↦ pure event
    | none ↦ do
      next ← lift (StateMachine.transition shipment.status target)
      save_shipment (record shipment { status = next })
      record_transition shipment target actor action request_id
  ]
