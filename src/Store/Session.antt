-- ===== src/Store/Session.antt =====
-- A session: the tables, the clock and the supply of ids, and the calls over it. A call that raises
-- leaves what it has written in the session; `transact` is the request, which commits a call that
-- returns and rolls back one that raises (`get_session` of backend/src/yitu/platform/database.py
-- closes the session, and each router commits after its service has returned).
--
-- `Clock.now()` gives one moment within a request, and `uuid4()` gives the next unused id.
use yitu.Base.{ℕ, ◌+◌, Bool, Option, none, some, List, if◌then◌else◌}
use yitu.Platform.Errors.{Error, Result, ok, err}
use yitu.Store.Cases.{ExceptionCase, TaskReassignment, SlaPause}
use yitu.Store.Catalog.{
  User, Station, ServiceArea, Address, PricingRule, QuoteSnapshot, ShipmentPackage,
}
use yitu.Store.Drafts.{AgentShipmentDraft, AgentActionGrant}
use yitu.Store.Rows.{
  Shipment, ShipmentHold, CourierTask, TransportLeg, PickupCredential, ProofOfDelivery,
  PaymentTransaction, RecoveryCase, SlaRule, SlaInstance, TrackingEvent, OutboxEvent, AuditEntry,
  IdempotencyRecord, DeadLetter,
}

pub record Session : Type 0 where
  pub now : ℕ
  pub next_id : ℕ
  pub shipments : List Shipment
  pub holds : List ShipmentHold
  pub tasks : List CourierTask
  pub legs : List TransportLeg
  pub credentials : List PickupCredential
  pub proofs : List ProofOfDelivery
  pub payments : List PaymentTransaction
  pub recoveries : List RecoveryCase
  pub sla_rules : List SlaRule
  pub sla_instances : List SlaInstance
  pub tracking : List TrackingEvent
  pub quotes : List QuoteSnapshot
  pub outbox : List OutboxEvent
  pub audit : List AuditEntry
  pub idempotency : List IdempotencyRecord
  pub dead_letters : List DeadLetter
  pub cases : List ExceptionCase
  pub reassignments : List TaskReassignment
  pub pauses : List SlaPause
  pub users : List User
  pub stations : List Station
  pub service_areas : List ServiceArea
  pub addresses : List Address
  pub pricing_rules : List PricingRule
  pub packages : List ShipmentPackage
  pub drafts : List AgentShipmentDraft
  pub grants : List AgentActionGrant

abbrev pub Action : Type 0 → Type 0
Action A = Session → Result A × Session

module _ {A : Type 0} where
  abbrev pub pure : A → Action A
  pure a s = (ok a, s)

  abbrev pub raise : Error → Action A
  raise e s = (err e, s)

  abbrev pub gets : (Session → A) → Action A
  gets f s = (ok (f s), s)

  -- The row, or the error when there is none.
  abbrev pub or_raise : Option A → Error → Action A
  or_raise none e s = (err e, s)
  or_raise (some a) e s = (ok a, s)

  -- A request around a call.
  unfoldable pub transact : Action A → Action A
  transact m s = let (r, s') = m s in elim r [ ok a ↦ (ok a, s') | err e ↦ (err e, s) ]

-- What follows a call that gave a result.
abbrev pub proceed : {A B : Type 0} → Result A → (A → Action B) → Action B
proceed (ok a) f s = f a s
proceed (err e) f s = (err e, s)

infixl 5 ◌>>=◌ ◌>>◌
abbrev pub ◌>>=◌ : {A B : Type 0} → Action A → (A → Action B) → Action B
◌>>=◌ m f s = let (r, s') = m s in proceed r f s'

abbrev pub ◌>>◌ : {A B : Type 0} → Action A → Action B → Action B
m >> k = m >>= λ _. k

abbrev pub raise_if : Bool → Error → Action (Unit {0})
raise_if c e s = (if c then err e else ok tt, s)

abbrev pub modify : (Session → Session) → Action (Unit {0})
modify f s = (ok tt, f s)

-- `uuid4()`
abbrev pub new_id : Action ℕ
new_id s = (ok s.next_id, record s { next_id = s.next_id + 1 })
