-- ===== src/Shipments/StateMachine/Paths.antt =====
-- What holds of sequences of transitions (backend/src/yitu/shipments/state_machine.py).
use yitu.Base.{
  ℕ, suc, ◌+◌, ◌*◌, ◌≤◌, ◌≡◌, refl, sym, ◌≢◌, ◌↔◌, ◌⊎◌, inl, inr, Bool, true, false, List, [], ◌∷◌,
  length, sum_by, arith,
}
use mathlib.Core.List.{Memᴰ}
use yitu.Platform.Errors.{Result, ok, is_ok, ◌>>=◌, >>=-eq-ok}
use yitu.Shipments.Enums.{
  ShipmentStatus, pending_payment, awaiting_supplement, pending_pickup, pickup_assigned,
  waiting_for_dropoff, picked_up, at_origin_station, in_linehaul, at_destination_station,
  delivery_assigned, out_for_delivery, waiting_for_recipient_pickup, delivered, cancelled,
  return_approved, in_return, returned,
}
use yitu.Shipments.StateMachine.{transition, allowed_actions}

-- A sequence of targets, each checked against the status that the one before it left.
unfoldable pub follow : ShipmentStatus → List ShipmentStatus → Result ShipmentStatus
follow s [] = ok s
follow s (t ∷ ts) = transition s t >>= λ u. follow u ts

pub transition-target : (s t : ShipmentStatus) {u : ShipmentStatus} → transition s t ≡ ok u → u ≡ t
unfolding transition
transition-target s t h = ground arith

-- The stage of fulfilment; redelivery goes back by one.
abbrev pub stage : ShipmentStatus → ℕ
stage pending_payment = 0
stage awaiting_supplement = 0
stage pending_pickup = 1
stage pickup_assigned = 2
stage waiting_for_dropoff = 3
stage picked_up = 3
stage at_origin_station = 4
stage in_linehaul = 5
stage at_destination_station = 6
stage delivery_assigned = 7
stage out_for_delivery = 8
stage waiting_for_recipient_pickup = 9
stage delivered = 11
stage cancelled = 11
stage return_approved = 9
stage in_return = 10
stage returned = 11

-- Whether a target is `delivery_assigned`, the only status that a shipment can come back to.
abbrev pub is_redelivery : ShipmentStatus → ℕ
is_redelivery delivery_assigned = 1
is_redelivery _ = 0

transition-stage :
    (s t : ShipmentStatus) {u : ShipmentStatus}
    → transition s t ≡ ok u
    → suc (stage s) ≤ stage u + 2 * is_redelivery t
unfolding transition
transition-stage s t h = ground arith

-- The number of times that a sequence goes to `delivery_assigned`.
abbrev pub redeliveries : List ShipmentStatus → ℕ
redeliveries = sum_by is_redelivery

follow-stage :
    (s : ShipmentStatus) (ts : List ShipmentStatus) {u : ShipmentStatus}
    → follow s ts ≡ ok u
    → length ts + stage s ≤ stage u + 2 * redeliveries ts
unfolding follow
follow-stage s [] h = ground arith
follow-stage s (t ∷ ts) h =
    let (v, e, r) = >>=-eq-ok (transition s t) (λ u. follow u ts) h in
    omega (arith, transition-stage s t e, follow-stage v ts r)

stage_bound : (s : ShipmentStatus) → stage s ≤ 11
stage_bound s = ground arith

-- A sequence of transitions that the table accepts and that goes to `delivery_assigned` k times has
-- at most 11 + 2 k steps. The statuses that a reweigh or a recovery sets without the table are no
-- steps of it.
pub follow_bounded :
    (s : ShipmentStatus) (ts : List ShipmentStatus) {u : ShipmentStatus}
    → follow s ts ≡ ok u
    → length ts ≤ 11 + 2 * redeliveries ts
follow_bounded s ts {u} h = omega (arith, follow-stage s ts h, stage_bound u)

-- A gate: no step goes past it from before it but the step to the gate itself.
module _ (before : ShipmentStatus → Bool) (gate : ShipmentStatus)
    (only : (s t u : ShipmentStatus)
      → before s ≡ true
      → transition s t ≡ ok u
      → (t ≡ gate) ⊎ (before u ≡ true)) where
  gate-mem :
      (s : ShipmentStatus) (ts : List ShipmentStatus) {u : ShipmentStatus}
      → before s ≡ true
      → before u ≡ false
      → follow s ts ≡ ok u
      → Memᴰ gate ts
  unfolding follow
  gate-mem s [] b a h = absurd (ground arith)
  gate-mem s (t ∷ ts) b a h =
      let (v, e, r) = >>=-eq-ok (transition s t) (λ u. follow u ts) h in
      elim (only s t v b e) [ inl p ↦ Memᴰ.head (sym p) | inr q ↦ Memᴰ.tail (gate-mem v ts q a r) ]

abbrev before_origin : ShipmentStatus → Bool
before_origin pending_payment = true
before_origin awaiting_supplement = true
before_origin pending_pickup = true
before_origin pickup_assigned = true
before_origin waiting_for_dropoff = true
before_origin picked_up = true
before_origin cancelled = true
before_origin _ = false

abbrev before_linehaul : ShipmentStatus → Bool
before_linehaul at_origin_station = true
before_linehaul s = before_origin s

abbrev before_destination : ShipmentStatus → Bool
before_destination in_linehaul = true
before_destination s = before_linehaul s

origin_gate :
    (s t u : ShipmentStatus)
    → before_origin s ≡ true
    → transition s t ≡ ok u
    → (t ≡ at_origin_station) ⊎ (before_origin u ≡ true)
unfolding transition
origin_gate s t u b h = ground arith

linehaul_gate :
    (s t u : ShipmentStatus)
    → before_linehaul s ≡ true
    → transition s t ≡ ok u
    → (t ≡ in_linehaul) ⊎ (before_linehaul u ≡ true)
unfolding transition
linehaul_gate s t u b h = ground arith

destination_gate :
    (s t u : ShipmentStatus)
    → before_destination s ≡ true
    → transition s t ≡ ok u
    → (t ≡ at_destination_station) ⊎ (before_destination u ≡ true)
unfolding transition
destination_gate s t u b h = ground arith

-- Every accepted sequence that brings a new shipment to `delivered` goes through the origin
-- station, the linehaul and the destination station.
pub delivered_passes_stations :
    (ts : List ShipmentStatus)
    → follow pending_payment ts ≡ ok delivered
    → Memᴰ at_origin_station ts × Memᴰ in_linehaul ts × Memᴰ at_destination_station ts
delivered_passes_stations ts h = (
  gate-mem before_origin at_origin_station origin_gate pending_payment ts refl refl h,
  gate-mem before_linehaul in_linehaul linehaul_gate pending_payment ts refl refl h,
  gate-mem before_destination at_destination_station destination_gate pending_payment ts refl refl
      h,
)

-- The parcel has been handed over to the carrier.
abbrev pub is_collected : ShipmentStatus → Bool
is_collected pending_payment = false
is_collected awaiting_supplement = false
is_collected pending_pickup = false
is_collected pickup_assigned = false
is_collected waiting_for_dropoff = false
is_collected cancelled = false
is_collected _ = true

transition-is_collected :
    (s t : ShipmentStatus) {u : ShipmentStatus}
    → is_collected s ≡ true
    → transition s t ≡ ok u
    → is_collected u ≡ true
unfolding transition
transition-is_collected s t c h = ground arith

follow-is_collected :
    (s : ShipmentStatus) (ts : List ShipmentStatus) {u : ShipmentStatus}
    → is_collected s ≡ true
    → follow s ts ≡ ok u
    → is_collected u ≡ true
unfolding follow
follow-is_collected s [] c h = ground arith
follow-is_collected s (t ∷ ts) c h =
    let (v, e, r) = >>=-eq-ok (transition s t) (λ u. follow u ts) h in
    follow-is_collected v ts (transition-is_collected s t c e) r

-- From `picked_up` on, no accepted sequence of transitions of the table ends in `cancelled`, goes back
-- to payment or to the pickup, or waits for a supplement. A reweigh, which sets a status without the
-- table, is no such sequence.
pub collected_never_cancelled :
    (s : ShipmentStatus) (ts : List ShipmentStatus) {u : ShipmentStatus}
    → is_collected s ≡ true
    → follow s ts ≡ ok u
    → (u ≢ cancelled)
      × (u ≢ pending_payment)
      × (u ≢ awaiting_supplement)
      × (u ≢ pending_pickup)
      × (u ≢ pickup_assigned)
collected_never_cancelled s ts {u} c h =
    let k = follow-is_collected s ts c h in
    (λ e. ground arith, λ e. ground arith, λ e. ground arith, λ e. ground arith, λ e. ground arith)

-- A way out of each status, along the shortest fulfilment.
abbrev exit_path : ShipmentStatus → List ShipmentStatus
exit_path pending_payment = cancelled ∷ []
exit_path awaiting_supplement = cancelled ∷ []
exit_path pending_pickup = cancelled ∷ []
exit_path waiting_for_dropoff = cancelled ∷ []
exit_path waiting_for_recipient_pickup = delivered ∷ []
exit_path out_for_delivery = delivered ∷ []
exit_path delivery_assigned = out_for_delivery ∷ delivered ∷ []
exit_path at_destination_station = delivery_assigned ∷ out_for_delivery ∷ delivered ∷ []
exit_path in_linehaul =
    at_destination_station ∷ delivery_assigned ∷ out_for_delivery ∷ delivered ∷ []
exit_path at_origin_station =
    in_linehaul ∷ at_destination_station ∷ delivery_assigned ∷ out_for_delivery ∷ delivered ∷ []
exit_path picked_up =
    at_origin_station ∷ in_linehaul ∷ at_destination_station ∷ delivery_assigned ∷ out_for_delivery
    ∷ delivered ∷ []
exit_path pickup_assigned =
    picked_up ∷ at_origin_station ∷ in_linehaul ∷ at_destination_station ∷ delivery_assigned
    ∷ out_for_delivery ∷ delivered ∷ []
exit_path return_approved = in_return ∷ returned ∷ []
exit_path in_return = returned ∷ []
exit_path _ = []

abbrev exit_status : ShipmentStatus → ShipmentStatus
exit_status pending_payment = cancelled
exit_status awaiting_supplement = cancelled
exit_status pending_pickup = cancelled
exit_status waiting_for_dropoff = cancelled
exit_status cancelled = cancelled
exit_status return_approved = returned
exit_status in_return = returned
exit_status returned = returned
exit_status _ = delivered

-- From every status some accepted sequence of transitions leads to `delivered`, `cancelled` or
-- `returned`.
pub status_settles :
    (s : ShipmentStatus)
    → (ts : List ShipmentStatus) × (u : ShipmentStatus) × (follow s ts ≡ ok u)
      × ((u ≡ delivered) ⊎ (u ≡ cancelled) ⊎ (u ≡ returned))
unfolding follow transition
status_settles s = (exit_path s, exit_status s, ground arith, ground arith)

-- Some status that comes next, where there is one.
abbrev next_status : ShipmentStatus → ShipmentStatus
next_status pending_payment = cancelled
next_status awaiting_supplement = cancelled
next_status pending_pickup = cancelled
next_status pickup_assigned = picked_up
next_status waiting_for_dropoff = cancelled
next_status picked_up = at_origin_station
next_status at_origin_station = in_linehaul
next_status in_linehaul = at_destination_station
next_status at_destination_station = delivery_assigned
next_status delivery_assigned = out_for_delivery
next_status out_for_delivery = delivered
next_status waiting_for_recipient_pickup = delivered
next_status return_approved = in_return
next_status _ = returned

-- A status offers no action exactly when every transition from it is refused.
pub allowed_actions-nil_iff :
    (s : ShipmentStatus)
    → (allowed_actions s ≡ []) ↔ ((t : ShipmentStatus) → is_ok (transition s t) ≡ false)
unfolding allowed_actions transition
allowed_actions-nil_iff s = (λ e t. ground arith, λ h. ground (arith, h (next_status s)))
