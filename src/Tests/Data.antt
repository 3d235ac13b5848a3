-- ===== src/Tests/Data.antt =====
-- A shipment, its users and its rows, for the examples.
use yitu.Base.{ℕ, true, none, some, List, [], ◌∷◌, Bool, ◌==◌}
use yitu.Platform.Json.{lit}
use yitu.Shipments.Enums.{
  home_delivery, ShipmentStatus, customer, courier, station_operator, door_pickup, DeliveryMethod,
}
use yitu.Store.Catalog.{QuoteSnapshot}
use yitu.Store.Rows.{
  CurrentUser, Shipment, ShipmentHold, CourierTask, CourierTaskType, CourierTaskStatus,
  PickupCredential, PaymentTransaction, payment, RecoveryCase, RecoveryAction, requested,
}
use yitu.Store.Session.{Session}

abbrev pub alice : CurrentUser
alice = record { user_id = 1; role = customer; user_station = none }

abbrev pub bob : CurrentUser
bob = record { user_id = 2; role = courier; user_station = some 10 }

abbrev pub eve : CurrentUser
eve = record { user_id = 3; role = courier; user_station = some 10 }

abbrev pub operator : CurrentUser
operator = record { user_id = 4; role = station_operator; user_station = some 10 }

abbrev pub parcel : ShipmentStatus → DeliveryMethod → Shipment
parcel status method = record {
  id = 5;
  shipment_no = lit "YT-5";
  owner_id = 1;
  sender_address_id = none;
  receiver_address_id = none;
  origin_station_id = some 10;
  destination_station_id = some 10;
  pickup_method = door_pickup;
  delivery_method = method;
  status = status;
  quote_id = some 20;
  package_id = none;
  created_at = 0;
}

abbrev pub task : CourierTaskType → CourierTaskStatus → CourierTask
task kind status = record {
  task_id = 30;
  task_shipment = 5;
  station_id = 10;
  task_type = kind;
  task_status = status;
  assignee_id = some 2;
  closed_reason = none;
  closed_at = none;
  replaced_by_task_id = none;
}

abbrev pub hold : ShipmentHold
hold = record {
  hold_id = 40;
  hold_shipment = 5;
  source_type = "EXCEPTION_CASE";
  source_id = 41;
  frozen_status = ShipmentStatus.picked_up;
  reason = lit "damage";
  active = true;
  placed_by = 4;
  placed_at = 0;
  released_by = none;
  released_at = none;
  place_idempotency_key = lit "hold";
  release_idempotency_key = none;
}

abbrev pub quote : QuoteSnapshot
quote = record {
  quote_row = 20;
  quote_owner = 1;
  quote_rule = 21;
  source_quote = none;
  quote_version = "v1";
  quote_input = record {
    origin_district_code = 49 ∷ 49 ∷ 48 ∷ 49 ∷ 48 ∷ 49 ∷ [];
    destination_district_code = 51 ∷ 49 ∷ 48 ∷ 49 ∷ 48 ∷ 49 ∷ [];
    pickup_method = door_pickup;
    delivery_method = home_delivery;
    actual_weight_grams = 900;
    length_cm = 10;
    width_cm = 10;
    height_cm = 10;
  };
  quote_items = [];
  quote_volume_grams = 125;
  quote_billable_grams = 900;
  quote_total_cents = 1500;
  quoted_at = 0;
}

abbrev pub credential : PickupCredential
credential = record {
  credential_id = 50;
  credential_shipment = 5;
  credential_station = some 10;
  code_hash = 123;
  expires_at = 2000;
  failed_attempts = 0;
  locked_at = none;
  consumed_at = none;
  issued_at = 0;
}

abbrev pub paid : PaymentTransaction
paid = record {
  payment_id = 60;
  payer_id = 1;
  payment_quote = some 20;
  payment_shipment = some 5;
  related_transaction_id = none;
  transaction_type = payment;
  succeeded = true;
  amount_cents = 1200;
  payment_key = lit "pay";
  paid_at = 0;
}

abbrev pub recovery : RecoveryAction → RecoveryCase
recovery action = record {
  recovery_id = 70;
  recovery_shipment = 5;
  recovery_action = action;
  recovery_status = requested;
  recovery_reason = lit "no one at home";
  recovery_actor = 1;
  recovery_key = lit "key";
  recovery_request = lit "request";
  recovery_created_at = 0;
  recovery_completed_at = none;
}

-- One shipment, with the tasks, holds and payments that are given.
abbrev pub store :
    Shipment → List CourierTask → List ShipmentHold → List PaymentTransaction → Session
store shipment tasks holds payments = record {
  now = 1000;
  next_id = 100;
  shipments = shipment ∷ [];
  holds = holds;
  tasks = tasks;
  legs = [];
  credentials = credential ∷ [];
  proofs = [];
  payments = payments;
  recoveries = [];
  sla_rules = [];
  sla_instances = [];
  tracking = [];
  quotes = quote ∷ [];
  outbox = [];
  audit = [];
  idempotency = [];
  dead_letters = [];
  cases = [];
  reassignments = [];
  pauses = [];
  users = [];
  stations = [];
  service_areas = [];
  addresses = [];
  pricing_rules = [];
  packages = [];
  drafts = [];
  grants = [];
}

-- A stand-in for the hasher: the length of the text, and equality with the first character.
abbrev pub toy_hash : ℕ → List ℕ → ℕ
toy_hash salt [] = 0
toy_hash salt (c ∷ cs) = c

abbrev pub toy_verify : ℕ → List ℕ → Bool
toy_verify h cs = toy_hash 0 cs == h
