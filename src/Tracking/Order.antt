-- ===== src/Tracking/Order.antt =====
-- The order and the uniqueness of a shipment's track (backend/src/yitu/tracking/service.py).
use Prim.Native.String.{String}
use yitu.Base.{
  ℕ, ◌+◌, max, ◌≡◌, refl, true, none, some, List, [], ◌∷◌, ◌++◌, ◌==◌, ==_self, if◌then◌else◌,
  arith, Option-cases, inl, inr,
}
use yitu.Platform.Errors.{ok}
use yitu.Platform.Json.{Key, key_eq_refl}
use yitu.Store.Rows.{TrackingEvent}
use yitu.Store.Session.{Session}
use yitu.Tracking.{find_event, latest_sequence, add_event, append_tracking_event}

pub find_event-append :
    (k : ℕ) (key : Key) (es : List TrackingEvent) (e : TrackingEvent)
    → find_event k key es ≡ none
    → e.event_shipment ≡ k
    → e.event_key ≡ key
    → find_event k key (es ++ e ∷ []) ≡ some e
unfolding find_event
find_event-append k key [] e h p q = ground (arith, ==_self k, key_eq_refl key)
find_event-append k key (x ∷ es) e h p q = ground (arith, find_event-append k key es e)

-- What appending gives: an event that is then found under its key.
pub append_tracking_event-found :
    (k : ℕ) (event_type : String) (message key : Key) (s : Session)
    → let (r, t) = append_tracking_event k event_type message key s in
      (e : TrackingEvent) × (r ≡ ok e) × (find_event k key t.tracking ≡ some e)
unfolding append_tracking_event add_event
append_tracking_event-found k event_type message key s =
    elim (Option-cases (find_event k key s.tracking)) [
      | inr (e, h) ↦ (e, ground arith, ground arith)
      | inl h ↦
          let e : TrackingEvent = record {
            event_id = s.next_id;
            event_shipment = k;
            sequence_no = latest_sequence k s.tracking + 1;
            event_type = event_type;
            message = message;
            visible_to_customer = true;
            event_key = key;
            occurred_at = s.now;
          } in
          (e, ground arith, rw h (find_event-append k key s.tracking e h refl refl))
    ]

-- The number of events of a shipment.
abbrev pub events_of : ℕ → List TrackingEvent → ℕ
events_of k [] = 0
events_of k (e ∷ es) = (if e.event_shipment == k then 1 else 0) + events_of k es

-- The events of a shipment are numbered n + 1, n + 2, … in the order in which they stand.
abbrev pub IsNumbered : ℕ → ℕ → List TrackingEvent → Type 0
IsNumbered k n [] = Unit
IsNumbered k n (e ∷ es) =
    (e.event_shipment ≡ k → e.sequence_no ≡ n + 1)
    × IsNumbered k (n + (if e.event_shipment == k then 1 else 0)) es

latest_sequence-IsNumbered :
    (k n : ℕ) (es : List TrackingEvent)
    → IsNumbered k n es
    → max n (latest_sequence k es) ≡ n + events_of k es
unfolding latest_sequence
latest_sequence-IsNumbered k n [] h = omega arith
latest_sequence-IsNumbered k n (e ∷ es) h =
    ground
      (arith, latest_sequence-IsNumbered k (n + (if e.event_shipment == k then 1 else 0)) es h.1)

IsNumbered-append :
    (k n : ℕ) (es : List TrackingEvent) (e : TrackingEvent)
    → IsNumbered k n es
    → (e.event_shipment ≡ k → e.sequence_no ≡ n + events_of k es + 1)
    → IsNumbered k n (es ++ e ∷ [])
IsNumbered-append k n [] e h p = (λ q. omega (arith, p q), tt)
IsNumbered-append k n (x ∷ es) e h p = (
  h.0,
  IsNumbered-append k (n + (if x.event_shipment == k then 1 else 0)) es e h.1
      (λ q. omega (arith, p q)),
)

-- Appending to the tracks keeps the events of each shipment numbered 1, 2, … without a gap.
pub append_tracking_event-IsNumbered :
    (j k : ℕ) (event_type : String) (message key : Key) (s : Session)
    → IsNumbered j 0 s.tracking
    → IsNumbered j 0 (append_tracking_event k event_type message key s).1.tracking
unfolding append_tracking_event add_event
append_tracking_event-IsNumbered j k event_type message key s h =
    elim (Option-cases (find_event k key s.tracking)) [
      | inr (e, f) ↦ rw f h
      | inl f ↦ rw f (
          IsNumbered-append j 0 s.tracking _ h
            λ (q : k ≡ j). rw q (omega (arith, latest_sequence-IsNumbered j 0 s.tracking h)))
    ]
