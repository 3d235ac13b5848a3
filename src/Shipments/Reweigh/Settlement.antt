-- ===== src/Shipments/Reweigh/Settlement.antt =====
-- What is owed after a reweigh (backend/src/yitu/shipments/service.py).
use yitu.Base.{
  ℕ, zero, suc, ◌+◌, ◌-◌, ◌≡◌, ◌<◌, refl, sym, ap, ◌∙◌, true, none, some, List, [], ◌∷◌, ◌++◌,
  sum_by-append, ◌⊎◌, inl, inr, ==_self, arith,
}
use yitu.Base.Int.{ℤ, pos, negsuc}
use yitu.Identity.{require_role, role_is}
use yitu.Payments.{paid_total, paid_amount, pay_supplement, quote_and_shipment}
use yitu.Platform.Errors.{ok, err, shipment_package_required, supplement_amount_mismatch}
use yitu.Platform.Json.{Key, lit, ident, ◌⊹◌}
use yitu.Platform.Outbox.{append}
use yitu.Shipments.Enums.{ShipmentStatus, awaiting_supplement, courier, customer}
use yitu.Shipments.Reweigh.{
  reweigh, weighed_package, settle_difference, difference, refunded_total, refund_of,
}
use yitu.Store.Catalog.{QuoteSnapshot}
use yitu.Store.Rows.{CurrentUser, Shipment, PaymentTransaction, refund}
use yitu.Store.Session.{Session, or_raise}
use yitu.Store.Queries.{find_shipment, find_shipment-id, find_package, put_package, put_shipment}
use yitu.Store.Steps.{after, after_read, or_raise-Returned, or_raise-same}
use yitu.Pricing.Service
use yitu.Pricing.Service.{Measures}
use yitu.Pricing.Service.Quotes.{reweigh-QuotesOnly}
use yitu.Shipments.Transition.Frame.{put_shipment-found}

-- A refund adds to what is refunded and leaves what is paid.
refund-totals :
    (k : ℕ) (p : PaymentTransaction) (ps : List PaymentTransaction)
    → p.payment_shipment ≡ some k
    → p.transaction_type ≡ refund
    → p.succeeded ≡ true
    → (paid_total k (ps ++ p ∷ []) ≡ paid_total k ps)
      × (refunded_total k (ps ++ p ∷ []) ≡ refunded_total k ps + p.amount_cents)
unfolding paid_total refunded_total
refund-totals k p ps a b c = (
  ground (arith, sum_by-append (paid_amount k) ps (p ∷ [])),
  ground (arith, sum_by-append (refund_of k) ps (p ∷ []), ==_self k),
)

-- Either nothing is owed for a quote, net of the refunds, or the shipment waits for the rest.
abbrev pub IsSettled : QuoteSnapshot → Shipment → List PaymentTransaction → Type 0
IsSettled q r ps =
    (paid_total r.id ps ≡ q.quote_total_cents + refunded_total r.id ps)
    ⊎ ((r.status ≡ awaiting_supplement)
        × (paid_total r.id ps < q.quote_total_cents + refunded_total r.id ps))

-- The refund of what was paid too much.
abbrev the_refund : Shipment → QuoteSnapshot → ℕ → Session → PaymentTransaction
the_refund r q n s = record {
  payment_id = s.next_id;
  payer_id = r.owner_id;
  payment_quote = some q.quote_row;
  payment_shipment = some r.id;
  related_transaction_id = none;
  transaction_type = refund;
  succeeded = true;
  amount_cents = suc n;
  payment_key = lit "mock-reweigh-refund:" ⊹ ident r.id ⊹ lit ":" ⊹ ident q.quote_row;
  paid_at = s.now;
}

settle_difference-IsSettled :
    (r : Shipment) (q : QuoteSnapshot) (d : ℤ) (s : Session) {status : ShipmentStatus} {t : Session}
    → d ≡ difference q.quote_total_cents r.id s.payments
    → settle_difference r q d s ≡ (ok status, t)
    → IsSettled q (record r { status = status }) t.payments
unfolding settle_difference append
settle_difference-IsSettled r q (pos zero) s h e = inl (ground (arith, e))
settle_difference-IsSettled r q (pos (suc n)) s h e = inr (ground (arith, e), ground (arith, e))
settle_difference-IsSettled r q (negsuc n) s {status} {t} h e =
    inl (ground (arith, e, refund-totals r.id (the_refund r q n s) s.payments))

settle_difference-shipments :
    (r : Shipment) (q : QuoteSnapshot) (d : ℤ) (s : Session)
    → (settle_difference r q d s).1.shipments ≡ s.shipments
unfolding settle_difference append
settle_difference-shipments r q d s = ground arith

-- Once a reweigh returns, the shipment is bound to the quote that it returns, and it is settled:
-- net of the refunds the quote's total is paid, or less is paid and the shipment awaits a
-- supplement.
pub reweigh-IsSettled :
    (k : ℕ) (m : Measures) (actor : CurrentUser) (s : Session) {q : QuoteSnapshot} {t : Session}
    → reweigh k m actor s ≡ (ok q, t)
    → (r : Shipment) × (find_shipment k t.shipments ≡ some r)
      × (r.quote_id ≡ some q.quote_row)
      × IsSettled q r t.payments
unfolding reweigh
reweigh-IsSettled k m actor s {q} {t} e = after (require_role courier actor) _ s e λ _ _ e.
    after_read (or_raise (find_shipment k s.shipments) shipment_package_required) _ s
      (or_raise-same _ _ s) e
      λ r p e.
        after_read (or_raise r.package_id shipment_package_required) _ s (or_raise-same _ _ s) e
          λ pid _ e.
            after_read (or_raise r.quote_id shipment_package_required) _ s (or_raise-same _ _ s) e
              λ qid _ e.
                after_read (or_raise (find_package pid s.packages) shipment_package_required) _ s
                  (or_raise-same _ _ s) e
                  λ x _ e.
                    let u = record s {
                      packages = put_package (weighed_package x m actor s.now) s.packages;
                    } in
                    after (Service.reweigh qid m actor) _ u e λ new _ e.
                      let v = (Service.reweigh qid m actor u).1 in
                      let only = reweigh-QuotesOnly qid m actor u in
                      let d = difference new.quote_total_cents r.id v.payments in
                      after (settle_difference r new d) _ v e λ status g e.
                        let w = (settle_difference r new d v).1 in
                        let f : find_shipment k s.shipments ≡ some r = or_raise-Returned _ _ s p in
                        let last = record r { status = status; quote_id = some new.quote_row } in
                        let i = find_shipment-id k s.shipments f in
                        let settled =
                          settle_difference-IsSettled r new d v refl (ap (λ y. (y, w)) g) in
                        let same : q ≡ new = ground (arith, e) in
                        let rows : t.shipments ≡ put_shipment last s.shipments =
                          ap (λ y. y.1.shipments) (sym e)
                          ∙ ap (put_shipment last) (
                              settle_difference-shipments r new d v
                              ∙ ap (λ (y : Session). y.shipments) only) in
                        let paid : t.payments ≡ w.payments = ap (λ y. y.1.payments) (sym e) in
                        (
                          last,
                          rw rows (put_shipment-found k last s.shipments f i),
                          rw same refl,
                          rw (same, paid) settled,
                        )

-- The supplement that a reweigh asks for cannot be paid once something has been refunded: the
-- payment of what is owed, net of the refunds, is refused by its amount, and writes nothing. The
-- customer owns the quote and the shipment that is bound to it.
pub refunded-supplement_refused :
    (quote_id k : ℕ) (actor : CurrentUser) (key : Key) (request_hash : ℕ) (s : Session)
    {q : QuoteSnapshot} {r : Shipment}
    → role_is actor.role customer ≡ true
    → quote_and_shipment quote_id k actor s ≡ (ok (q, r), s)
    → 0 < refunded_total r.id s.payments
    → let owed =
        q.quote_total_cents + refunded_total r.id s.payments - paid_total r.id s.payments in
      pay_supplement quote_id k owed actor key request_hash s ≡ (err supplement_amount_mismatch, s)
unfolding pay_supplement
refunded-supplement_refused quote_id k actor key request_hash s {q} {r} c b h = ground arith
