-- ===== src/Tracking.antt =====
-- backend/src/yitu/tracking/service.py: the shipment's track, one row for each fact.
pub mod Order
use Prim.Native.String.{String}
use yitu.Base.{
  ℕ, ◌+◌, max, true, ◌&&◌, Option, none, some, List, [], ◌∷◌, ◌++◌, find_first, select, leb, ◌==◌,
  if◌then◌else◌,
}
use yitu.Base.Sorting.{sort_by}
use yitu.Platform.Json.{Key, key_eq}
use yitu.Store.Rows.{TrackingEvent}
use yitu.Store.Session.{Action, new_id, modify, gets, pure, ◌>>=◌, ◌>>◌}

-- The event of a shipment with an idempotency key.
unfoldable pub find_event : ℕ → Key → List TrackingEvent → Option TrackingEvent
find_event shipment_id key =
    find_first (λ e. (e.event_shipment == shipment_id) && key_eq e.event_key key)

-- `max(sequence_no)` of a shipment, or 0
unfoldable pub latest_sequence : ℕ → List TrackingEvent → ℕ
latest_sequence shipment_id [] = 0
latest_sequence shipment_id (e ∷ es) =
    max (if e.event_shipment == shipment_id then e.sequence_no else 0)
      (latest_sequence shipment_id es)

unfoldable pub add_event : ℕ → String → Key → Key → Action TrackingEvent
unfolding latest_sequence
add_event shipment_id event_type message idempotency_key = do
  latest ← gets (λ s. latest_sequence shipment_id s.tracking)
  event_id ← new_id
  occurred_at ← gets (λ s. s.now)
  let event : TrackingEvent = record {
    event_id = event_id;
    event_shipment = shipment_id;
    sequence_no = latest + 1;
    event_type = event_type;
    message = message;
    visible_to_customer = true;
    event_key = idempotency_key;
    occurred_at = occurred_at;
  }
  modify (λ s. record s { tracking = s.tracking ++ event ∷ [] })
  pure event

unfoldable pub append_tracking_event : ℕ → String → Key → Key → Action TrackingEvent
append_tracking_event shipment_id event_type message idempotency_key = do
  existing ← gets (λ s. find_event shipment_id idempotency_key s.tracking)
  elim existing [
    | some event ↦ pure event
    | none ↦ add_event shipment_id event_type message idempotency_key
  ]

-- `list_tracking_events`
unfoldable pub list_tracking_events : ℕ → List TrackingEvent → List TrackingEvent
list_tracking_events shipment_id events =
    sort_by (λ (x y : TrackingEvent). leb x.sequence_no y.sequence_no)
      (select (λ e. (e.event_shipment == shipment_id) && e.visible_to_customer) events)
