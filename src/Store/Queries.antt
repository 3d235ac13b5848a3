-- ===== src/Store/Queries.antt =====
-- Rows by their primary key, and the write of a loaded row.
use yitu.Base.{ℕ, ◌≡◌, sym, ap, Option, some, is_some, List}
use yitu.Base.Table.{by_key, put_row, by_key_found, by_key-put_row_self}
use yitu.Store.Cases.{ExceptionCase, SlaPause}
use yitu.Store.Catalog.{QuoteSnapshot, PricingRule, ShipmentPackage, Address, User, Station}
use yitu.Store.Drafts.{AgentShipmentDraft, AgentActionGrant}
use yitu.Store.Rows.{Shipment, SlaRule, SlaInstance, OutboxEvent, CourierTask, PaymentTransaction}

unfoldable pub find_shipment : ℕ → List Shipment → Option Shipment
find_shipment = by_key (λ (r : Shipment). r.id)

unfoldable pub put_shipment : Shipment → List Shipment → List Shipment
put_shipment = put_row (λ (r : Shipment). r.id)

unfoldable pub find_rule : ℕ → List SlaRule → Option SlaRule
find_rule = by_key (λ (r : SlaRule). r.rule_id)

unfoldable pub find_instance : ℕ → List SlaInstance → Option SlaInstance
find_instance = by_key (λ (r : SlaInstance). r.sla_id)

unfoldable pub put_instance : SlaInstance → List SlaInstance → List SlaInstance
put_instance = put_row (λ (r : SlaInstance). r.sla_id)

unfoldable pub find_task : ℕ → List CourierTask → Option CourierTask
find_task = by_key (λ (r : CourierTask). r.task_id)

unfoldable pub put_task : CourierTask → List CourierTask → List CourierTask
put_task = put_row (λ (r : CourierTask). r.task_id)

unfoldable pub find_quote : ℕ → List QuoteSnapshot → Option QuoteSnapshot
find_quote = by_key (λ (r : QuoteSnapshot). r.quote_row)

unfoldable pub find_payment : ℕ → List PaymentTransaction → Option PaymentTransaction
find_payment = by_key (λ (r : PaymentTransaction). r.payment_id)

unfoldable pub find_outbox : ℕ → List OutboxEvent → Option OutboxEvent
find_outbox = by_key (λ (r : OutboxEvent). r.outbox_id)

unfoldable pub put_outbox : OutboxEvent → List OutboxEvent → List OutboxEvent
put_outbox = put_row (λ (r : OutboxEvent). r.outbox_id)

unfoldable pub find_case : ℕ → List ExceptionCase → Option ExceptionCase
find_case = by_key (λ (r : ExceptionCase). r.case_id)

unfoldable pub put_case : ExceptionCase → List ExceptionCase → List ExceptionCase
put_case = put_row (λ (r : ExceptionCase). r.case_id)

unfoldable pub put_pause : SlaPause → List SlaPause → List SlaPause
put_pause = put_row (λ (r : SlaPause). r.pause_id)

unfoldable pub find_pricing_rule : ℕ → List PricingRule → Option PricingRule
find_pricing_rule = by_key (λ (r : PricingRule). r.pricing_rule_id)

unfoldable pub find_package : ℕ → List ShipmentPackage → Option ShipmentPackage
find_package = by_key (λ (r : ShipmentPackage). r.package_row)

unfoldable pub put_package : ShipmentPackage → List ShipmentPackage → List ShipmentPackage
put_package = put_row (λ (r : ShipmentPackage). r.package_row)

unfoldable pub find_address : ℕ → List Address → Option Address
find_address = by_key (λ (r : Address). r.address_row)

unfoldable pub find_user : ℕ → List User → Option User
find_user = by_key (λ (r : User). r.user_row)

unfoldable pub find_station : ℕ → List Station → Option Station
find_station = by_key (λ (r : Station). r.station_row)

unfoldable pub find_draft : ℕ → List AgentShipmentDraft → Option AgentShipmentDraft
find_draft = by_key (λ (r : AgentShipmentDraft). r.draft_row)

unfoldable pub put_draft : AgentShipmentDraft → List AgentShipmentDraft → List AgentShipmentDraft
put_draft = put_row (λ (r : AgentShipmentDraft). r.draft_row)

unfoldable pub find_grant : ℕ → List AgentActionGrant → Option AgentActionGrant
find_grant = by_key (λ (r : AgentActionGrant). r.grant_row)

unfoldable pub put_grant : AgentActionGrant → List AgentActionGrant → List AgentActionGrant
put_grant = put_row (λ (r : AgentActionGrant). r.grant_row)

pub find_shipment-id :
    (k : ℕ) (rows : List Shipment) {r : Shipment} → find_shipment k rows ≡ some r → r.id ≡ k
unfolding find_shipment
find_shipment-id k rows h = by_key_found (λ (r : Shipment). r.id) k rows h

pub find_quote-id :
    (k : ℕ) (rows : List QuoteSnapshot) {r : QuoteSnapshot}
    → find_quote k rows ≡ some r
    → r.quote_row ≡ k
unfolding find_quote
find_quote-id k rows h = by_key_found (λ (r : QuoteSnapshot). r.quote_row) k rows h

-- A draft that was written is found.
pub find_draft-put :
    (k : ℕ) (d new : AgentShipmentDraft) (rows : List AgentShipmentDraft)
    → find_draft k rows ≡ some d
    → new.draft_row ≡ d.draft_row
    → find_draft k (put_draft new rows) ≡ some new
unfolding find_draft put_draft
find_draft-put k d new rows f same =
    let id = by_key_found (λ (r : AgentShipmentDraft). r.draft_row) k rows f in
    rw (sym id, sym same)
      (by_key-put_row_self (λ (r : AgentShipmentDraft). r.draft_row) new rows
        (rw (same, id) (ap is_some f)))

pub find_draft-id :
    (k : ℕ) (rows : List AgentShipmentDraft) {r : AgentShipmentDraft}
    → find_draft k rows ≡ some r
    → r.draft_row ≡ k
unfolding find_draft
find_draft-id k rows h = by_key_found (λ (r : AgentShipmentDraft). r.draft_row) k rows h
