-- ===== src/Tests/Machines.antt =====
-- The state machines, the prices, the working time and the assistant, at examples.
use mathlib.Core.List.{Memᴰ}
use yitu.Agent.{AssistantState, load_context_node, create_shipment_node, next_node}
use yitu.Agent.Walks.{Walk, here, step, turn_ends}
use yitu.Base.{ℕ, ◌+◌, ◌-◌, ◌*◌, ◌≡◌, ◌≤◌, ◌≢◌, ◌⊎◌, refl, true, false, some, List, [], ◌∷◌, length}
use yitu.Base.Int.{pos, pos_part}
use yitu.Exceptions.StateMachine as Cases
use yitu.Exceptions.StateMachine.{
  opened, closed, assign, start_processing, resolve, close, CaseAction, ExceptionStatus,
}
use yitu.Exceptions.StateMachine.Paths.{apply_all}
use yitu.Platform.Errors.{ok}
use yitu.Pricing.Policy.{
  PricingInput, QuoteCalculation, same_city, default_rules, volume_weight, billable_weight,
  calculate_quote, validate_input, route_code, fee_items, sum_amounts,
}
use yitu.Pricing.Policy.Laws.{
  calculate_quote-total, IsBillable, IsUnits, pickup_fee, pickup_discount,
}
use yitu.Shipments.Enums.{
  ShipmentStatus, pending_payment, awaiting_supplement, pending_pickup, pickup_assigned, picked_up,
  at_origin_station, in_linehaul, at_destination_station, delivery_assigned, out_for_delivery,
  delivered, cancelled, returned, door_pickup, home_delivery,
}
use yitu.Shipments.StateMachine
use yitu.Shipments.StateMachine.{allowed_actions}
use yitu.Shipments.StateMachine.Paths.{
  follow, delivered_passes_stations, follow_bounded, redeliveries, collected_never_cancelled,
  status_settles,
}
use yitu.Sla.Calendar.{hour, add_work_hours, add_loop, work_hours_between}
use yitu.Sla.Calendar.Deadline.{IsDeadline, add_work_hours-IsDeadline, between-add_work_hours}

abbrev home_path : List ShipmentStatus
home_path =
    pending_pickup ∷ pickup_assigned ∷ picked_up ∷ at_origin_station ∷ in_linehaul
    ∷ at_destination_station ∷ delivery_assigned ∷ out_for_delivery ∷ delivered ∷ []

home_path-ok : follow pending_payment home_path ≡ ok delivered
unfolding follow StateMachine.transition
home_path-ok = refl

delivered_example :
    Memᴰ at_origin_station home_path
    × Memᴰ in_linehaul home_path
    × Memᴰ at_destination_station home_path
delivered_example = delivered_passes_stations home_path home_path-ok

follow_bounded_example : length home_path ≤ 11 + 2 * redeliveries home_path
follow_bounded_example = follow_bounded pending_payment home_path home_path-ok

abbrev late_path : List ShipmentStatus
late_path = out_for_delivery ∷ delivered ∷ []

late_path-ok : follow delivery_assigned late_path ≡ ok delivered
unfolding follow StateMachine.transition
late_path-ok = refl

collected_example :
    (delivered ≢ cancelled)
    × (delivered ≢ pending_payment)
    × (delivered ≢ awaiting_supplement)
    × (delivered ≢ pending_pickup)
    × (delivered ≢ pickup_assigned)
collected_example = collected_never_cancelled delivery_assigned late_path refl late_path-ok

settles_example :
    (ts : List ShipmentStatus) × (u : ShipmentStatus) × (follow in_linehaul ts ≡ ok u)
    × ((u ≡ delivered) ⊎ (u ≡ cancelled) ⊎ (u ≡ returned))
settles_example = status_settles in_linehaul

abbrev case_path : List CaseAction
case_path = assign ∷ start_processing ∷ resolve ∷ close ∷ []

case_path-ok : apply_all opened case_path ≡ ok closed
unfolding apply_all Cases.transition
case_path-ok = refl

-- A parcel of a weight, within Beijing.
abbrev parcel_of : ℕ → PricingInput
parcel_of grams = record {
  actual_weight_grams = grams;
  length_cm = 20;
  width_cm = 20;
  height_cm = 20;
  pickup_method = door_pickup;
  delivery_method = home_delivery;
  origin_district_code = 49 ∷ 49 ∷ 48 ∷ 49 ∷ 48 ∷ 49 ∷ [];
  destination_district_code = 49 ∷ 49 ∷ 48 ∷ 49 ∷ 48 ∷ 50 ∷ [];
}

abbrev quoted : ℕ → QuoteCalculation
quoted grams = record {
  rule_version = "pricing-demo-v1";
  quoted_route = same_city;
  volume_weight_grams = volume_weight (parcel_of grams);
  billable_weight_grams = billable_weight (parcel_of grams);
  items = fee_items (parcel_of grams) (default_rules same_city);
  total_cents = pos_part (sum_amounts (fee_items (parcel_of grams) (default_rules same_city)));
}

quoted-ok : calculate_quote (parcel_of 1700) (some (default_rules same_city)) ≡ ok (quoted 1700)
unfolding calculate_quote validate_input route_code
quoted-ok = refl

heavier-ok : calculate_quote (parcel_of 2600) (some (default_rules same_city)) ≡ ok (quoted 2600)
unfolding calculate_quote validate_input route_code
heavier-ok = refl

total_example :
    (k : ℕ) × IsBillable (parcel_of 1700) (quoted 1700).billable_weight_grams
    × IsUnits (quoted 1700).billable_weight_grams k
    × ((quoted 1700).total_cents
        ≡ (default_rules same_city).base_fee_cents
          + k * (default_rules same_city).additional_fee_cents
          + pickup_fee door_pickup
          + (default_rules same_city).remote_surcharge_cents
          - pickup_discount home_delivery)
total_example = calculate_quote-total (parcel_of 1700) (default_rules same_city) quoted-ok

-- Saturday 17:00 and two hours more: Monday 10:00.
abbrev saturday_evening : ℕ
saturday_evening = 137 * hour

due_example :
    (r : ℕ) × (add_work_hours saturday_evening (pos (2 * hour)) ≡ some r)
    × IsDeadline saturday_evening (2 * hour) r
due_example = add_work_hours-IsDeadline saturday_evening (2 * hour)

deadline-at : add_work_hours saturday_evening (pos 0) ≡ some saturday_evening
unfolding add_work_hours add_loop
deadline-at = refl

between_example : work_hours_between saturday_evening saturday_evening ≡ some 0
between_example = between-add_work_hours saturday_evening 0 deadline-at

-- A state with no error in which all is known and confirmed.
abbrev confirmed_state : AssistantState
confirmed_state = record {
  error = false;
  shipment_requested = true;
  pending_tool_calls = false;
  missing_fields = false;
  confirmed = true;
}

shipping-Walk : Walk load_context_node create_shipment_node 6
unfolding next_node
shipping-Walk = step confirmed_state refl (
    step confirmed_state refl (
      step confirmed_state refl
        (step confirmed_state refl (step confirmed_state refl (step confirmed_state refl here)))))

turn_ends_example : 6 ≤ 7
turn_ends_example = turn_ends shipping-Walk
