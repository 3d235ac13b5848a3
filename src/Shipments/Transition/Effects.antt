-- ===== src/Shipments/Transition/Effects.antt =====
-- What a transition writes (backend/src/yitu/shipments/service.py, `ShipmentTransitionService`).
use Prim.Native.String.{String}
use yitu.Base.{◌≡◌, sym, ap, ◌∙◌, ◌⊎◌, inl, inr, none, some, arith, Option-cases}
use yitu.Platform.Audit.{audit_record}
use yitu.Platform.Errors.{Error, ok, err, Result-cases}
use yitu.Platform.Json.{Key}
use yitu.Platform.Outbox.{append}
use yitu.Shipments.Enums.{ShipmentStatus}
use yitu.Shipments.StateMachine
use yitu.Shipments.StateMachine.Paths.{transition-target}
use yitu.Shipments.Transition.{transition, record_transition, transition_key, transition_message}
use yitu.Sla.Service.{sync_shipment_transition}
use yitu.Sla.Service.Frame.{sync-StagesOnly}
use yitu.Store.Queries.{put_shipment}
use yitu.Store.Rows.{CurrentUser, Shipment, TrackingEvent}
use yitu.Store.Session.{Session}
use yitu.Tracking.Order.{append_tracking_event-found}
use yitu.Tracking.{find_event, append_tracking_event, add_event}

-- Only stages, tracks, notifications, audit entries and the supply of ids change.
abbrev pub FactsOnly : Session → Session → Type 0
FactsOnly s t = t ≡ record s {
  next_id = t.next_id;
  sla_instances = t.sla_instances;
  tracking = t.tracking;
  outbox = t.outbox;
  audit = t.audit;
}

record_transition-FactsOnly :
    (shipment : Shipment) (target : ShipmentStatus) (actor : CurrentUser) (action : String)
    (request_id : Key) (s : Session)
    → FactsOnly s (record_transition shipment target actor action request_id s).1
unfolding record_transition append_tracking_event add_event append audit_record
record_transition-FactsOnly shipment target actor action request_id s =
    ground (arith, sync-StagesOnly shipment.id target s)

-- Once `record_transition` has returned an event, that event is found under its key.
record_transition-found :
    (shipment : Shipment) (target : ShipmentStatus) (actor : CurrentUser) (action : String)
    (request_id : Key) (s : Session) {e : TrackingEvent} {t : Session}
    → find_event shipment.id (transition_key shipment.id action request_id) s.tracking ≡ none
    → record_transition shipment target actor action request_id s ≡ (ok e, t)
    → find_event shipment.id (transition_key shipment.id action request_id) t.tracking ≡ some e
unfolding record_transition append audit_record
record_transition-found shipment target actor action request_id s f h = ground (
  arith,
  sync-StagesOnly shipment.id target s,
  append_tracking_event-found shipment.id action (transition_message target)
      (transition_key shipment.id action request_id)
      (sync_shipment_transition shipment.id target s).1,
)

-- The session that `record_transition` works on: the status has been written.
abbrev pub with_status : Shipment → ShipmentStatus → Session → Session
with_status shipment target s = record s {
  shipments = put_shipment (record shipment { status = target }) s.shipments;
}

module _ (shipment : Shipment) (target : ShipmentStatus) (actor : CurrentUser) (action : String)
    (request_id : Key) (s : Session) where
  -- A transition that was recorded before under the same action and request gives its event back
  -- and writes nothing.
  pub transition_replay :
      {e : TrackingEvent}
      → find_event shipment.id (transition_key shipment.id action request_id) s.tracking ≡ some e
      → transition shipment target actor action request_id s ≡ (ok e, s)
  unfolding transition
  transition_replay h = ground arith

  -- A transition that the state machine refuses raises its error and writes nothing.
  pub transition_refused :
      {e : Error}
      → find_event shipment.id (transition_key shipment.id action request_id) s.tracking ≡ none
      → StateMachine.transition shipment.status target ≡ err e
      → transition shipment target actor action request_id s ≡ (err e, s)
  unfolding transition
  transition_refused h r = ground arith

  transition_accepted :
      find_event shipment.id (transition_key shipment.id action request_id) s.tracking ≡ none
      → StateMachine.transition shipment.status target ≡ ok target
      → transition shipment target actor action request_id s
        ≡ record_transition shipment target actor action request_id (with_status shipment target s)
  unfolding transition
  transition_accepted h r = ground arith

  -- A transition either leaves the session alone, or is allowed by the state machine and writes
  -- exactly one status, beside stages, tracks, notifications and audit entries.
  pub transition_effect :
      let t = (transition shipment target actor action request_id s).1 in
      (t ≡ s)
      ⊎ ((StateMachine.transition shipment.status target ≡ ok target)
          × FactsOnly (with_status shipment target s) t)
  unfolding transition
  transition_effect =
      elim (Option-cases
        (find_event shipment.id (transition_key shipment.id action request_id) s.tracking)) [
          | inr (e, h) ↦ inl (ground (arith, transition_replay h))
          | inl h ↦ elim (Result-cases (StateMachine.transition shipment.status target)) [
            | inr (e, r) ↦ inl (ground (arith, transition_refused h r))
            | inl (u, r) ↦
                let same : u ≡ target = transition-target shipment.status target r in
                let r' : StateMachine.transition shipment.status target ≡ ok target =
                  r ∙ ap ok same in
                inr (
                  r',
                  rw (transition_accepted h r') (
                      record_transition-FactsOnly shipment target actor action request_id
                        (with_status shipment target s)),
                )
          ]
        ]

  -- A transition that returned can be repeated: it gives the same event and writes nothing more,
  -- whatever status the shipment has by then.
  pub transition_idempotent :
      (later : Shipment) {e : TrackingEvent} {t : Session}
      → later.id ≡ shipment.id
      → transition shipment target actor action request_id s ≡ (ok e, t)
      → transition later target actor action request_id t ≡ (ok e, t)
  unfolding transition
  transition_idempotent later {e} {t} p h =
      elim (Option-cases
        (find_event shipment.id (transition_key shipment.id action request_id) s.tracking)) [
          | inr (e', f) ↦
              let g : (ok e, t) ≡ (ok e', s) = sym h ∙ transition_replay f in ground (arith, g)
          | inl f ↦ elim (Result-cases (StateMachine.transition shipment.status target)) [
            | inr (x, r) ↦ absurd (ground (arith, transition_refused f r))
            | inl (u, r) ↦
                let same : u ≡ target = transition-target shipment.status target r in
                let g = transition_accepted f (r ∙ ap ok same) in
                let found =
                  record_transition-found shipment target actor action request_id
                    (with_status shipment target s) f (sym g ∙ h) in
                rw (p, found)
          ]
        ]
