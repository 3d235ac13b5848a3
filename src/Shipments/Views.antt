-- ===== src/Shipments/Views.antt =====
-- backend/src/yitu/shipments/service.py: the list of shipments and the aggregate of one, in the
-- scope of the actor. A view of a row is the row; the database's order of texts, `text_before`, is a
-- parameter.
pub mod Visibility
use Prim.Native.String.{String}
use yitu.Base.{
  ℕ, ◌+◌, Bool, true, false, ◌&&◌, ◌||◌, not, Option, none, some, List, [], ◌∷◌, length, select,
  any_of, find_first, ltb, leb, ◌==◌, opt_eq, if◌then◌else◌,
}
use yitu.Base.Int.{ℤ, sub_ℕ}
use yitu.Base.Sorting.{sort_by, skip, limit_to, first_of}
use yitu.Identity.{require_role}
use yitu.Payments.{paid_total, is_payment}
use yitu.Platform.Errors.{forbidden_role, forbidden_station_scope}
use yitu.Platform.Json.{Key, key_eq}
use yitu.Shipments.Enums.{
  Role, customer, courier, station_operator, operations_admin, ShipmentStatus, status_eq,
}
use yitu.Shipments.Reweigh.{refunded_total}
use yitu.Store.Catalog.{Address, QuoteSnapshot, ShipmentPackage}
use yitu.Store.Queries.{find_address, find_quote, find_package}
use yitu.Store.Rows.{
  CurrentUser, Shipment, CourierTask, PaymentTransaction, SlaInstance, TrackingEvent,
}
use yitu.Store.Session.{Action, Session, gets, raise, pure, ◌>>=◌, ◌>>◌}
use yitu.Tracking.{list_tracking_events}

-- `ShipmentReadView`
pub record ShipmentReadView : Type 0 where
  pub of_shipment : Shipment
  pub track : List TrackingEvent
  pub net_paid : ℤ
  pub first_paid_at : Option ℕ
  pub eta : Option ℕ
  pub promised : Option ℕ
  pub sender : Option Address
  pub receiver : Option Address
  pub of_package : Option ShipmentPackage
  pub of_quote : Option QuoteSnapshot

abbrev pub is_end_of : ℕ → Shipment → Bool
is_end_of station r =
    opt_eq r.origin_station_id (some station) || opt_eq r.destination_station_id (some station)

-- The test of `list` on a row, under a role.
unfoldable pub list_scope : Role → CurrentUser → Action (Shipment → Bool)
list_scope customer actor = pure (λ r. r.owner_id == actor.user_id)
list_scope courier actor = raise forbidden_role
list_scope station_operator actor = elim actor.user_station [
  | none ↦ raise forbidden_station_scope
  | some station ↦ pure (is_end_of station)
]
list_scope operations_admin actor = pure (λ r. true)

abbrev has_status : Option ShipmentStatus → Shipment → Bool
has_status none r = true
has_status (some status) r = status_eq r.status status

module _ (text_before : Key → Key → Bool) where
  -- The newer row first, and of two of one moment the one with the larger number.
  abbrev pub listed_before : Shipment → Shipment → Bool
  listed_before x y =
      ltb y.created_at x.created_at
      || ((x.created_at == y.created_at) && not (text_before x.shipment_no y.shipment_no))

  -- A page of the list, and the number of the rows on all pages.
  unfoldable pub list_shipments :
      CurrentUser → Option ShipmentStatus → ℕ → ℕ → Action (List Shipment × ℕ)
  list_shipments actor status limit offset = do
    visible ← list_scope actor.role actor
    rows ← gets (λ s. select (λ r. visible r && has_status status r) s.shipments)
    pure (limit_to limit (skip offset (sort_by listed_before rows)), length rows)

-- `coalesce(sum(case REFUND then -amount else amount), 0)` of the transactions that succeeded
abbrev pub net_paid_total : ℕ → List PaymentTransaction → ℤ
net_paid_total shipment_id ps = sub_ℕ (paid_total shipment_id ps) (refunded_total shipment_id ps)

abbrev is_payment_of : ℕ → PaymentTransaction → Bool
is_payment_of shipment_id p =
    opt_eq p.payment_shipment (some shipment_id) && (is_payment p && p.succeeded)

abbrev paid_at_of : Option PaymentTransaction → Option ℕ
paid_at_of none = none
paid_at_of (some p) = some p.paid_at

unfoldable pub first_payment_at : ℕ → List PaymentTransaction → Option ℕ
first_payment_at shipment_id ps = paid_at_of (
    first_of (
      sort_by (λ (x y : PaymentTransaction). leb x.paid_at y.paid_at)
        (select (is_payment_of shipment_id) ps)))

abbrev load : {A : Type 0} → Option ℕ → (ℕ → Option A) → Option A
load none find = none
load (some i) find = find i

-- `_build_detail`
unfoldable pub build_detail : Shipment → Session → ShipmentReadView
build_detail r s = record {
  of_shipment = r;
  track = list_tracking_events r.id s.tracking;
  net_paid = net_paid_total r.id s.payments;
  first_paid_at = first_payment_at r.id s.payments;
  eta = none;
  promised = none;
  sender = load r.sender_address_id (λ i. find_address i s.addresses);
  receiver = load r.receiver_address_id (λ i. find_address i s.addresses);
  of_package = load r.package_id (λ i. find_package i s.packages);
  of_quote = load r.quote_id (λ i. find_quote i s.quotes);
}

abbrev pub has_task_for : ℕ → CurrentUser → ℕ → List CourierTask → Bool
has_task_for shipment_id actor station = any_of λ t.
    (t.task_shipment == shipment_id)
    && (opt_eq t.assignee_id (some actor.user_id) || (t.station_id == station))

-- The test of `get_detail` on the row with the id, under a role.
unfoldable pub detail_scope : Role → ℕ → CurrentUser → List CourierTask → Action (Shipment → Bool)
detail_scope customer shipment_id actor tasks = pure (λ r. r.owner_id == actor.user_id)
detail_scope station_operator shipment_id actor tasks = elim actor.user_station [
  | none ↦ raise forbidden_station_scope
  | some station ↦ pure (is_end_of station)
]
detail_scope courier shipment_id actor tasks = elim actor.user_station [
  | none ↦ raise forbidden_station_scope
  | some station ↦ pure (λ r. has_task_for shipment_id actor station tasks)
]
detail_scope operations_admin shipment_id actor tasks = pure (λ r. true)

abbrev detail_of : Option Shipment → Session → Option ShipmentReadView
detail_of none s = none
detail_of (some r) s = some (build_detail r s)

unfoldable pub get_detail : ℕ → CurrentUser → Action (Option ShipmentReadView)
get_detail shipment_id actor = do
  tasks ← gets (λ s. s.tasks)
  visible ← detail_scope actor.role shipment_id actor tasks
  gets (λ s. detail_of (find_first (λ r. (r.id == shipment_id) && visible r) s.shipments) s)

-- A stage that started later goes first, one that has not started last; then the larger id.
abbrev pub stage_before : SlaInstance → SlaInstance → Bool
stage_before x y = elim x.sla_started_at [
  | none ↦ elim y.sla_started_at [ none ↦ leb y.sla_id x.sla_id | some u ↦ false ]
  | some t ↦ elim y.sla_started_at [
    | none ↦ true
    | some u ↦ ltb u t || ((t == u) && leb y.sla_id x.sla_id)
  ]
]

unfoldable pub latest_stage : ℕ → List SlaInstance → Option SlaInstance
latest_stage shipment_id is =
    first_of (sort_by stage_before (select (λ i. i.sla_shipment == shipment_id) is))

abbrev with_stage : Option SlaInstance → ShipmentReadView → ShipmentReadView
with_stage none v = v
with_stage (some i) v = record v { eta = i.eta_at; promised = i.promised_delivery_at }

abbrev read_of : Option Shipment → Session → Option ShipmentReadView
read_of none s = none
read_of (some r) s = some (with_stage (latest_stage r.id s.sla_instances) (build_detail r s))

abbrev has_number : Option Key → Shipment → Bool
has_number none r = true
has_number (some wanted) r = key_eq r.shipment_no wanted

unfoldable pub get_read_view :
    (Key → Key → Bool) → CurrentUser → Option Key → Action (Option ShipmentReadView)
get_read_view text_before actor number = do
  require_role customer actor
  gets (λ s.
      read_of
        (first_of (
          sort_by (λ (x y : Shipment). not (text_before x.shipment_no y.shipment_no))
            (select (λ r. (r.owner_id == actor.user_id) && has_number number r) s.shipments)))
        s)
