-- ===== src/Returns/Refunds.antt =====
-- What a recovery refunds (backend/src/yitu/returns/service.py): the totals of the payments.
use yitu.Base.{
  ℕ, ◌+◌, ◌-◌, ◌≤◌, ◌≡◌, refl, max, true, none, some, [], ◌∷◌, ◌++◌, List, arith, sum_by-append,
}
use yitu.Payments.{paid_total, paid_amount}
use yitu.Platform.Errors.{ok}
use yitu.Platform.Json.{Key, lit, ◌⊹◌}
use yitu.Returns.Operations.{
  refund_paid_amount, refund_total, refunded_amount, first_payment, related_id, cancel_operation,
  Outcome,
}
use yitu.Sla.Service.{cancel_active_for_shipment}
use yitu.Store.Rows.{CurrentUser, Shipment, RecoveryCase, PaymentTransaction, refund}
use yitu.Store.Session.{Session}

paid_total-add :
    (k : ℕ) (ps : List PaymentTransaction) (p : PaymentTransaction)
    → paid_total k (ps ++ p ∷ []) ≡ paid_total k ps + paid_amount k p
unfolding paid_total
paid_total-add k ps p = omega (arith, sum_by-append (paid_amount k) ps (p ∷ []))

refund_total-add :
    (k : ℕ) (ps : List PaymentTransaction) (p : PaymentTransaction)
    → refund_total k (ps ++ p ∷ []) ≡ refund_total k ps + refunded_amount k p
unfolding refund_total
refund_total-add k ps p = omega (arith, sum_by-append (refunded_amount k) ps (p ∷ []))

module _ (shipment : Shipment) (actor : CurrentUser) (key : Key) (s : Session) where
  -- The row of the refund.
  abbrev refund_row : PaymentTransaction
  refund_row = record {
    payment_id = s.next_id;
    payer_id = shipment.owner_id;
    payment_quote = none;
    payment_shipment = some shipment.id;
    related_transaction_id = related_id (first_payment shipment.id s.payments);
    transaction_type = refund;
    succeeded = true;
    amount_cents = paid_total shipment.id s.payments - refund_total shipment.id s.payments;
    payment_key = lit "recovery:" ⊹ key ⊹ lit ":refund";
    paid_at = s.now;
  }

  pub refund-paid :
      paid_total shipment.id (refund_paid_amount shipment actor key s).1.payments
      ≡ paid_total shipment.id s.payments
  unfolding refund_paid_amount
  refund-paid = ground (arith, paid_total-add shipment.id s.payments refund_row)

  pub refund-refunded :
      refund_total shipment.id (refund_paid_amount shipment actor key s).1.payments
      ≡ max (paid_total shipment.id s.payments) (refund_total shipment.id s.payments)
  unfolding refund_paid_amount
  refund-refunded = ground (arith, refund_total-add shipment.id s.payments refund_row)

  refund-amount :
      (refund_paid_amount shipment actor key s).0
      ≡ ok (paid_total shipment.id s.payments - refund_total shipment.id s.payments)
  unfolding refund_paid_amount
  refund-amount = ground arith

module _ (shipment : Shipment) (recovery : RecoveryCase) (actor : CurrentUser) (reason key : Key)
    (s : Session) where
  cancel-payments :
      {o : Outcome} {t : Session}
      → cancel_operation shipment recovery actor reason key s ≡ (ok o, t)
      → t.payments ≡ (refund_paid_amount shipment actor key s).1.payments
  unfolding cancel_operation cancel_active_for_shipment refund_paid_amount
  cancel-payments {o} {t} h = ground arith

  cancel-amount :
      {o : Outcome} {t : Session}
      → cancel_operation shipment recovery actor reason key s ≡ (ok o, t)
      → o.refund_amount ≡ paid_total shipment.id s.payments - refund_total shipment.id s.payments
  unfolding cancel_operation refund_paid_amount
  cancel-amount {o} {t} h = ground arith

  -- A cancellation that returns has refunded all that was paid and not yet refunded, so that the
  -- refunds of the shipment then amount to what was paid, provided no more had been refunded
  -- before; what was paid stays recorded, and the amount returned is the difference.
  pub cancel_refunds_all :
      {o : Outcome} {t : Session}
      → refund_total shipment.id s.payments ≤ paid_total shipment.id s.payments
      → cancel_operation shipment recovery actor reason key s ≡ (ok o, t)
      → (refund_total shipment.id t.payments ≡ paid_total shipment.id t.payments)
        × (paid_total shipment.id t.payments ≡ paid_total shipment.id s.payments)
        × (o.refund_amount + refund_total shipment.id s.payments
            ≡ paid_total shipment.id s.payments)
  cancel_refunds_all {o} {t} le h =
      let p = cancel-payments h in
      let e = cancel-amount h in
      (
        rw (p, refund-paid shipment actor key s, refund-refunded shipment actor key s)
            (omega arith),
        rw (p, refund-paid shipment actor key s) refl,
        omega arith,
      )
