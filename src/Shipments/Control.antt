-- ===== src/Shipments/Control.antt =====
-- backend/src/yitu/shipments/control.py: the lock on a shipment and the holds that block it.
-- A row lock is the read of the row: the requests of a session run one after another.
pub mod Holds
use Prim.Native.String.{String}
use package.text.Mathlib.Text.{◌==◌ as str_eq}
use yitu.Base.{
  ℕ, map, Bool, true, false, ◌&&◌, not, Option, none, some, List, [], ◌∷◌, ◌++◌, find_first, select,
  update_where, any_of, is_some, ◌==◌,
}
use yitu.Store.Queries.{find_shipment, put_shipment}
use yitu.Platform.Errors.{
  shipment_not_found, shipment_fulfillment_blocked, resume_target_mismatch,
  resume_precondition_failed,
}
use yitu.Platform.Json.{Key}
use yitu.Shipments.Enums.{
  ShipmentStatus, status_eq, pickup_assigned, delivery_assigned, out_for_delivery, in_linehaul,
}
use yitu.Store.Rows.{
  CurrentUser, Shipment, ShipmentHold, CourierTask, CourierTaskType, CourierTaskStatus, pickup,
  delivery, available, accepted, completed, task_cancelled, TransportLeg, TransportLegStatus,
  in_transit, arrived,
}
use yitu.Store.Session.{Action, new_id, modify, gets, or_raise, raise_if, pure, ◌>>=◌, ◌>>◌}

-- The writes to a loaded shipment.
abbrev pub save_shipment : Shipment → Action (Unit {0})
save_shipment r = modify (λ s. record s { shipments = put_shipment r s.shipments })

unfoldable pub lock_shipment : ℕ → Action Shipment
lock_shipment shipment_id = do
  or_raise (← gets (λ s. find_shipment shipment_id s.shipments)) shipment_not_found

-- Whether an active hold stands on the shipment.
unfoldable pub is_blocked : ℕ → List ShipmentHold → Bool
is_blocked shipment_id = any_of (λ h. (h.hold_shipment == shipment_id) && h.active)

unfoldable pub lock_and_assert_fulfillment_allowed : ℕ → Action Shipment
unfolding lock_shipment
lock_and_assert_fulfillment_allowed shipment_id = do
  shipment ← lock_shipment shipment_id
  raise_if (← gets (λ s. is_blocked shipment_id s.holds)) shipment_fulfillment_blocked
  pure shipment

abbrev pub is_source : String → ℕ → ShipmentHold → Bool
is_source source_type source_id h = str_eq h.source_type source_type && (h.source_id == source_id)

unfoldable pub find_source : String → ℕ → List ShipmentHold → Option ShipmentHold
find_source source_type source_id = find_first (is_source source_type source_id)

unfoldable pub place_exception_hold : ℕ → String → ℕ → Key → CurrentUser → Key → Action ShipmentHold
place_exception_hold shipment_id source_type source_id reason actor idempotency_key = do
  shipment ← lock_shipment shipment_id
  existing ← gets (λ s. find_source source_type source_id s.holds)
  elim existing [
    | some hold ↦ pure hold
    | none ↦ do
      hold_id ← new_id
      now ← gets (λ s. s.now)
      let hold : ShipmentHold = record {
        hold_id = hold_id;
        hold_shipment = shipment.id;
        source_type = source_type;
        source_id = source_id;
        frozen_status = shipment.status;
        reason = reason;
        active = true;
        placed_by = actor.user_id;
        placed_at = now;
        released_by = none;
        released_at = none;
        place_idempotency_key = idempotency_key;
        release_idempotency_key = none;
      }
      modify (λ s. record s { holds = s.holds ++ hold ∷ [] })
      pure hold
  ]

abbrev pub contains : ℕ → List ℕ → Bool
contains n = any_of (λ m. m == n)

-- The holds that a release is for.
abbrev pub is_released : ℕ → String → List ℕ → ShipmentHold → Bool
is_released shipment_id source_type source_ids h =
    ((h.hold_shipment == shipment_id) && str_eq h.source_type source_type)
    && (contains h.source_id source_ids && h.active)

abbrev pub released : CurrentUser → ℕ → Key → ShipmentHold → ShipmentHold
released actor now key h = record h {
  active = false;
  released_by = some actor.user_id;
  released_at = some now;
  release_idempotency_key = some key;
}

unfoldable pub release_exception_holds :
    ℕ → String → List ℕ → CurrentUser → Key → Action (List ShipmentHold)
release_exception_holds shipment_id source_type source_ids actor idempotency_key = do
  lock_shipment shipment_id
  elim source_ids [
    | [] ↦ pure []
    | i ∷ is ↦ do
      now ← gets (λ s. s.now)
      found ← gets (λ s. select (is_released shipment_id source_type (i ∷ is)) s.holds)
      modify (λ s. record s {
        holds =
            update_where (is_released shipment_id source_type (i ∷ is))
              (released actor now idempotency_key) s.holds;
      })
      pure (map (released actor now idempotency_key) found)
  ]

abbrev pub type_eq : CourierTaskType → CourierTaskType → Bool
type_eq pickup pickup = true
type_eq delivery delivery = true
type_eq _ _ = false

-- `status.in_([AVAILABLE, ACCEPTED])`
abbrev pub is_open : CourierTaskStatus → Bool
is_open available = true
is_open accepted = true
is_open completed = false
is_open task_cancelled = false

unfoldable pub active_task : ℕ → CourierTaskType → List CourierTask → Option CourierTask
active_task shipment_id task_type = find_first λ t.
    ((t.task_shipment == shipment_id) && type_eq t.task_type task_type) && is_open t.task_status

require_active_task : ℕ → CourierTaskType → Action (Unit {0})
require_active_task shipment_id task_type = do
  task ← gets (λ s. active_task shipment_id task_type s.tasks)
  raise_if (not (is_some task)) resume_precondition_failed

abbrev pub leg_running : TransportLegStatus → Bool
leg_running in_transit = true
leg_running arrived = false

-- The transport leg of a shipment that is under way.
unfoldable pub active_leg : ℕ → List TransportLeg → Option TransportLeg
active_leg shipment_id =
    find_first (λ l. (l.leg_shipment == shipment_id) && leg_running l.leg_status)

unfoldable pub require_facts : ℕ → ShipmentStatus → Action (Unit {0})
unfolding require_active_task
require_facts shipment_id pickup_assigned = require_active_task shipment_id pickup
require_facts shipment_id delivery_assigned = require_active_task shipment_id delivery
require_facts shipment_id out_for_delivery = require_active_task shipment_id delivery
require_facts shipment_id in_linehaul = do
  leg ← gets (λ s. active_leg shipment_id s.legs)
  raise_if (not (is_some leg)) resume_precondition_failed
require_facts shipment_id _ = pure tt

unfoldable pub assert_resume_preconditions : Shipment → ShipmentStatus → Action (Unit {0})
unfolding require_facts
assert_resume_preconditions shipment target_status = do
  raise_if (not (status_eq shipment.status target_status)) resume_target_mismatch
  require_facts shipment.id target_status
