-- ===== src/Shipments/Enums.antt =====
-- backend/src/yitu/shipments/enums.py and the role of backend/src/yitu/identity/models.py.
use yitu.Base.{ℕ, Bool, ◌==◌}

pub data ShipmentStatus : Type 0 where
  pending_payment awaiting_supplement pending_pickup pickup_assigned : ShipmentStatus
  waiting_for_dropoff picked_up at_origin_station in_linehaul : ShipmentStatus
  at_destination_station delivery_assigned out_for_delivery : ShipmentStatus
  waiting_for_recipient_pickup delivered cancelled : ShipmentStatus
  return_approved in_return returned : ShipmentStatus

pub data PickupMethod : Type 0 where
  door_pickup station_dropoff : PickupMethod

pub data DeliveryMethod : Type 0 where
  home_delivery station_pickup : DeliveryMethod

pub data Role : Type 0 where
  customer courier station_operator operations_admin : Role

-- The position of a member in its enum, by which `is` and `in` compare.
abbrev pub position : ShipmentStatus → ℕ
position pending_payment = 0
position awaiting_supplement = 1
position pending_pickup = 2
position pickup_assigned = 3
position waiting_for_dropoff = 4
position picked_up = 5
position at_origin_station = 6
position in_linehaul = 7
position at_destination_station = 8
position delivery_assigned = 9
position out_for_delivery = 10
position waiting_for_recipient_pickup = 11
position delivered = 12
position cancelled = 13
position return_approved = 14
position in_return = 15
position returned = 16

abbrev pub status_eq : ShipmentStatus → ShipmentStatus → Bool
status_eq s t = position s == position t
