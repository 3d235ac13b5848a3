-- ===== src/Shipments/Reweigh.antt =====
-- backend/src/yitu/shipments/service.py, `reweigh`: the courier has weighed the package, and the
-- shipment gets a new quote.
--
-- The net paid amount is a sum with the refunds negative, an integer; the difference of a quote's
-- total from it is taken between naturals. In the notice, an amount is a number's text, and the
-- amount in yuan, which is the same amount, is left out.
pub mod Settlement
use Prim.Native.String.{String}
use yitu.Base.{
  ℕ, suc, zero, ◌+◌, Bool, true, false, ◌&&◌, ◌||◌, not, Option, none, some, List, [], ◌∷◌, ◌++◌,
  sum_by, opt_eq, if◌then◌else◌,
}
use yitu.Base.Int.{ℤ, pos, negsuc, sub_ℕ}
use yitu.Identity.{require_role}
use yitu.Payments.{paid_total, is_paid, add_payment}
use yitu.Platform.Errors.{shipment_package_required}
use yitu.Platform.Json.{Key, lit, ident, ◌⊹◌, Object, str, fields}
use yitu.Platform.Outbox.{append}
use yitu.Pricing.Service
use yitu.Pricing.Service.{Measures}
use yitu.Shipments.Control.{save_shipment}
use yitu.Shipments.Enums.{ShipmentStatus, awaiting_supplement, pickup_assigned, status_eq, courier}
use yitu.Shipments.Transition.{shipment_key}
use yitu.Store.Catalog.{QuoteSnapshot, ShipmentPackage}
use yitu.Store.Queries.{find_package, put_package, find_shipment}
use yitu.Store.Rows.{CurrentUser, Shipment, PaymentTransaction, refund}
use yitu.Store.Session.{Action, modify, gets, or_raise, pure, ◌>>=◌, ◌>>◌}

-- What a row takes off the net paid amount.
abbrev pub refund_of : ℕ → PaymentTransaction → ℕ
refund_of shipment_id p =
    if opt_eq p.payment_shipment (some shipment_id)
      && (not (is_paid p.transaction_type) && p.succeeded)
    then p.amount_cents
    else 0

unfoldable pub refunded_total : ℕ → List PaymentTransaction → ℕ
refunded_total shipment_id = sum_by (refund_of shipment_id)

-- `quote.total_cents - int(paid_total or 0)`
abbrev pub difference : ℕ → ℕ → List PaymentTransaction → ℤ
difference total shipment_id ps =
    sub_ℕ (total + refunded_total shipment_id ps) (paid_total shipment_id ps)

abbrev pub weighed_package : ShipmentPackage → Measures → CurrentUser → ℕ → ShipmentPackage
weighed_package p m actor now = record p {
  weighed = some (m.weight, m.length, m.width, m.height);
  reweighed_by = some actor.user_id;
  reweighed_at = some now;
}

abbrev pub supplement_notice : Shipment → QuoteSnapshot → ℕ → Object
supplement_notice r q amount =
    ("recipient_id", str (ident r.owner_id))
    ∷ ("template_code", str (lit "SUPPLEMENT_REQUIRED"))
    ∷ (
      "template_data",
      fields (
          ("shipment_no", r.shipment_no)
          ∷ ("shipment_id", ident r.id)
          ∷ ("quote_id", ident q.quote_row)
          ∷ ("amount_cents", ident amount)
          ∷ []),
    )
    ∷ []

-- The status of the shipment once nothing is owed.
abbrev pub settled_status : ShipmentStatus → ShipmentStatus
settled_status awaiting_supplement = pickup_assigned
settled_status status = status

-- The branches on the difference: the status after it.
unfoldable pub settle_difference : Shipment → QuoteSnapshot → ℤ → Action ShipmentStatus
settle_difference r q (pos zero) = pure (settled_status r.status)
settle_difference r q (pos (suc n)) = do
  append "notification.requested" (shipment_key r.id) (supplement_notice r q (suc n))
      (lit "notification:" ⊹ ident r.id ⊹ lit ":supplement:" ⊹ ident q.quote_row)
  pure awaiting_supplement
settle_difference r q (negsuc n) = do
  add_payment r.owner_id (some q.quote_row) r.id none refund (suc n)
      (lit "mock-reweigh-refund:" ⊹ ident r.id ⊹ lit ":" ⊹ ident q.quote_row)
  pure r.status

unfoldable pub reweigh : ℕ → Measures → CurrentUser → Action QuoteSnapshot
reweigh shipment_id m actor = do
  require_role courier actor
  r ← or_raise (← gets (λ s. find_shipment shipment_id s.shipments)) shipment_package_required
  package_id ← or_raise r.package_id shipment_package_required
  quote_id ← or_raise r.quote_id shipment_package_required
  p ← or_raise (← gets (λ s. find_package package_id s.packages)) shipment_package_required
  modify (λ s. record s { packages = put_package (weighed_package p m actor s.now) s.packages })
  q ← Service.reweigh quote_id m actor
  status ← settle_difference r q (← gets (λ s. difference q.quote_total_cents r.id s.payments))
  save_shipment (record r { status = status; quote_id = some q.quote_row })
  pure q
