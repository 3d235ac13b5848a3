-- ===== src/Shipments/Transition/Frame.antt =====
-- What a transition leaves alone (backend/src/yitu/shipments/service.py).
use Prim.Native.String.{String}
use yitu.Base.{ℕ, ◌≡◌, refl, sym, ap, some, List, inl, inr, arith}
use yitu.Base.Table.{by_key-put_row_self}
use yitu.Store.Queries.{find_shipment, put_shipment, find_shipment-id}
use yitu.Platform.Json.{Key}
use yitu.Shipments.Enums.{ShipmentStatus}
use yitu.Shipments.Transition.Effects.{transition_effect}
use yitu.Shipments.Transition.{transition}
use yitu.Store.Rows.{CurrentUser, Shipment}
use yitu.Store.Session.{Session}

-- The tables that a transition does not write are the same.
abbrev pub MovesOnly : Session → Session → Type 0
MovesOnly s t = t ≡ record s {
  next_id = t.next_id;
  shipments = t.shipments;
  sla_instances = t.sla_instances;
  tracking = t.tracking;
  outbox = t.outbox;
  audit = t.audit;
}

pub transition-MovesOnly :
    (shipment : Shipment) (target : ShipmentStatus) (actor : CurrentUser) (action : String)
    (request_id : Key) (s : Session)
    → MovesOnly s (transition shipment target actor action request_id s).1
transition-MovesOnly shipment target actor action request_id s =
    elim (transition_effect shipment target actor action request_id s) [
      | inl h ↦ ground (arith, h)
      | inr (r, h) ↦ ground (arith, h)
    ]

pub put_shipment-found :
    (k : ℕ) (r : Shipment) (rows : List Shipment) {x : Shipment}
    → find_shipment k rows ≡ some x
    → r.id ≡ k
    → find_shipment k (put_shipment r rows) ≡ some r
unfolding find_shipment put_shipment
put_shipment-found k r rows f p =
    rw (sym p) (by_key-put_row_self (λ (x : Shipment). x.id) r rows (rw (p, f) refl))

-- After a transition of the row of a shipment, the row is found with the same columns but the
-- status.
pub transition-found :
    (k : ℕ) (shipment : Shipment) (target : ShipmentStatus) (actor : CurrentUser) (action : String)
    (request_id : Key) (s : Session)
    → find_shipment k s.shipments ≡ some shipment
    → (status : ShipmentStatus) × (find_shipment k
          (transition shipment target actor action request_id s).1.shipments
        ≡ some (record shipment { status = status }))
transition-found k shipment target actor action request_id s f =
    elim (transition_effect shipment target actor action request_id s) [
      | inl h ↦ (shipment.status, rw h f)
      | inr (r, h) ↦ (
        target,
        rw (ap (λ (x : Session). x.shipments) h) (
            put_shipment-found k (record shipment { status = target }) s.shipments f
              (find_shipment-id k s.shipments f)),
      )
    ]
