-- ===== src/Payments.antt =====
-- backend/src/yitu/payments/service.py: payment, supplement and refund of a shipment. The hash of
-- a request's body is an argument; amounts are in cents, and the request's schema asks for a
-- positive one.
pub mod Totals
use Prim.Native.String.{String}
use yitu.Base.{
  ℕ, ◌-◌, Bool, true, false, ◌&&◌, ◌||◌, not, Option, none, some, List, [], ◌∷◌, ◌++◌, sum_by,
  select, ◌==◌, opt_eq, leb, if◌then◌else◌, is_some,
}
use yitu.Dispatch.{create_pickup_task, is_door_pickup}
use yitu.Identity.{require_role, require_resource_owner}
use yitu.Platform.Errors.{
  err, quote_not_found, shipment_not_found, forbidden_resource_owner, quote_not_bound_to_shipment,
  payment_amount_mismatch, shipment_not_payable, origin_station_required,
  supplement_amount_mismatch, payment_not_found, shipment_not_refundable,
}
use yitu.Platform.Idempotency.{execute}
use yitu.Platform.Json.{Key, lit, ident, ◌⊹◌, Object, Value, str, number, fields, null}
use yitu.Platform.Outbox.{append}
use yitu.Shipments.Control.{lock_shipment, lock_and_assert_fulfillment_allowed}
use yitu.Shipments.Enums.{
  ShipmentStatus, pending_payment, pending_pickup, waiting_for_dropoff, awaiting_supplement,
  pickup_assigned, cancelled, status_eq, customer, PickupMethod, door_pickup, station_dropoff,
}
use yitu.Shipments.StateMachine.{one_of}
use yitu.Shipments.Transition.{transition, shipment_key}
use yitu.Store.Queries.{find_quote, find_payment}
use yitu.Store.Catalog.{QuoteSnapshot}
use yitu.Store.Rows.{
  CurrentUser, Shipment, PaymentTransaction, TransactionType, payment, supplement, refund,
  IdempotencyResponse,
}
use yitu.Store.Session.{Action, new_id, modify, gets, or_raise, raise_if, pure, ◌>>=◌, ◌>>◌}

abbrev pub is_paid : TransactionType → Bool
is_paid payment = true
is_paid supplement = true
is_paid refund = false

-- What a row adds to the paid total of a shipment.
abbrev pub paid_amount : ℕ → PaymentTransaction → ℕ
paid_amount shipment_id p =
    if opt_eq p.payment_shipment (some shipment_id) && (is_paid p.transaction_type && p.succeeded)
    then p.amount_cents
    else 0

-- `_paid_total`
unfoldable pub paid_total : ℕ → List PaymentTransaction → ℕ
paid_total shipment_id = sum_by (paid_amount shipment_id)

-- `PaymentTransactionView`
abbrev type_text : TransactionType → String
type_text payment = "PAYMENT"
type_text supplement = "SUPPLEMENT"
type_text refund = "REFUND"

abbrev pub optional_id : Option ℕ → Value
optional_id none = null
optional_id (some i) = str (ident i)

abbrev pub payment_view : PaymentTransaction → Object
payment_view p =
    ("id", str (ident p.payment_id))
    ∷ ("transaction_type", str (lit (type_text p.transaction_type)))
    ∷ ("status", str (lit (if p.succeeded then "SUCCEEDED" else "FAILED")))
    ∷ ("amount_cents", number p.amount_cents)
    ∷ ("created_at", number p.paid_at)
    ∷ ("quote_id", optional_id p.payment_quote)
    ∷ ("shipment_id", optional_id p.payment_shipment)
    ∷ ("related_transaction_id", optional_id p.related_transaction_id)
    ∷ []

abbrev pub created : PaymentTransaction → IdempotencyResponse
created p = record { status_code = 201; body = payment_view p }

-- `session.add(PaymentTransaction(…, status="SUCCEEDED", …))`
abbrev pub add_payment :
    ℕ → Option ℕ → ℕ → Option ℕ → TransactionType → ℕ → Key → Action PaymentTransaction
add_payment owner quote shipment_id related kind amount key = do
  payment_id ← new_id
  now ← gets (λ s. s.now)
  let row : PaymentTransaction = record {
    payment_id = payment_id;
    payer_id = owner;
    payment_quote = quote;
    payment_shipment = some shipment_id;
    related_transaction_id = related;
    transaction_type = kind;
    succeeded = true;
    amount_cents = amount;
    payment_key = key;
    paid_at = now;
  }
  modify (λ s. record s { payments = s.payments ++ row ∷ [] })
  pure row

unfoldable pub quote_and_shipment : ℕ → ℕ → CurrentUser → Action (QuoteSnapshot × Shipment)
quote_and_shipment quote_id shipment_id actor = do
  quote ← or_raise (← gets (λ s. find_quote quote_id s.quotes)) quote_not_found
  require_resource_owner quote.quote_owner actor
  shipment ← lock_shipment shipment_id
  require_resource_owner shipment.owner_id actor
  raise_if (not (quote.quote_owner == shipment.owner_id)) forbidden_resource_owner
  raise_if (not (opt_eq shipment.quote_id (some quote.quote_row))) quote_not_bound_to_shipment
  pure (quote, shipment)

abbrev pub paid_target : PickupMethod → ShipmentStatus
paid_target door_pickup = pending_pickup
paid_target station_dropoff = waiting_for_dropoff

-- A shipment that is picked up at the door gets its task.
unfoldable pub open_pickup : PickupMethod → Shipment → Action (Unit {0})
open_pickup door_pickup shipment = do
  origin ← or_raise shipment.origin_station_id origin_station_required
  create_pickup_task shipment origin
  pure tt
open_pickup station_dropoff shipment = pure tt

abbrev pub success_notice : CurrentUser → Shipment → Object
success_notice actor shipment =
    ("recipient_id", str (ident actor.user_id))
    ∷ ("template_code", str (lit "PAYMENT_SUCCESS"))
    ∷ ("template_data", fields (("shipment_no", shipment.shipment_no) ∷ []))
    ∷ []

-- The operation of `pay_quote`.
unfoldable pub pay_operation :
    QuoteSnapshot → ℕ → ℕ → CurrentUser → Key → Action IdempotencyResponse
pay_operation quote shipment_id amount actor key = do
  shipment ← lock_and_assert_fulfillment_allowed shipment_id
  raise_if (not (status_eq shipment.status pending_payment)) shipment_not_payable
  row ← add_payment actor.user_id (some quote.quote_row) shipment.id none payment amount key
  transition shipment (paid_target shipment.pickup_method) actor "confirm_payment"
      (lit "payment:" ⊹ ident shipment.id)
  open_pickup shipment.pickup_method shipment
  append "notification.requested" (shipment_key shipment.id) (success_notice actor shipment)
      (lit "notification:" ⊹ ident shipment.id ⊹ lit ":payment-success")
  pure (created row)

unfoldable pub pay_quote : ℕ → ℕ → ℕ → CurrentUser → Key → ℕ → Action IdempotencyResponse
pay_quote quote_id shipment_id amount actor key request_hash = do
  require_role customer actor
  (quote, shipment) ← quote_and_shipment quote_id shipment_id actor
  raise_if (not (amount == quote.quote_total_cents)) payment_amount_mismatch
  execute (lit "payment:pay:" ⊹ ident actor.user_id) key request_hash
      (pay_operation quote shipment.id amount actor key)

-- A shipment that waits for the supplement goes on.
unfoldable pub resume_supplemented : Shipment → ℕ → CurrentUser → Action (Unit {0})
resume_supplemented shipment quote_id actor = elim (status_eq shipment.status awaiting_supplement) [
  | true ↦ do
    transition shipment pickup_assigned actor "pay_supplement"
        (lit "supplement:" ⊹ ident shipment.id ⊹ lit ":" ⊹ ident quote_id)
    pure tt
  | false ↦ pure tt
]

-- The operation of `pay_supplement`.
unfoldable pub supplement_operation :
    QuoteSnapshot → Shipment → ℕ → CurrentUser → Key → Action IdempotencyResponse
supplement_operation quote shipment amount actor key = do
  row ← add_payment actor.user_id (some quote.quote_row) shipment.id none supplement amount key
  resume_supplemented shipment quote.quote_row actor
  pure (created row)

-- `required` is the quote's total less what has been paid; the test refuses it when it is not
-- positive, so that the difference that is compared is exact.
unfoldable pub pay_supplement : ℕ → ℕ → ℕ → CurrentUser → Key → ℕ → Action IdempotencyResponse
pay_supplement quote_id shipment_id amount actor key request_hash = do
  require_role customer actor
  (quote, shipment) ← quote_and_shipment quote_id shipment_id actor
  paid ← gets (λ s. paid_total shipment.id s.payments)
  raise_if (leb quote.quote_total_cents paid || not (amount == quote.quote_total_cents - paid))
      supplement_amount_mismatch
  execute (lit "payment:supplement:" ⊹ ident actor.user_id) key request_hash
      (supplement_operation quote shipment amount actor key)

abbrev pub is_payment : PaymentTransaction → Bool
is_payment p = elim p.transaction_type [ payment ↦ true | _ ↦ false ]

-- The operation of `refund_payment`.
unfoldable pub refund_operation :
    PaymentTransaction → Shipment → ℕ → CurrentUser → Key → Action IdempotencyResponse
refund_operation paid shipment refund_total actor key = do
  row ← add_payment actor.user_id none shipment.id (some paid.payment_id) refund refund_total key
  transition shipment cancelled actor "cancel" (lit "refund:" ⊹ ident paid.payment_id)
  pure (created row)

-- The shipment of a transaction; there is none under `None`.
abbrev pub load_shipment : Option ℕ → Action Shipment
load_shipment none s = (err shipment_not_found, s)
load_shipment (some shipment_id) s = lock_shipment shipment_id s

unfoldable pub refund_payment : ℕ → CurrentUser → Key → ℕ → Action IdempotencyResponse
refund_payment transaction_id actor key request_hash = do
  require_role customer actor
  paid ← or_raise (← gets (λ s. find_payment transaction_id s.payments)) payment_not_found
  raise_if (not (is_payment paid)) payment_not_found
  require_resource_owner paid.payer_id actor
  shipment ← load_shipment paid.payment_shipment
  raise_if (not (one_of shipment.status (pending_pickup ∷ waiting_for_dropoff ∷ [])))
      shipment_not_refundable
  refund_total ← gets (λ s. paid_total shipment.id s.payments)
  execute (lit "payment:refund:" ⊹ ident actor.user_id) key request_hash
      (refund_operation paid shipment refund_total actor key)
