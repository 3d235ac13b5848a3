-- ===== src/Payments/Totals.antt =====
-- What is paid, and what a repeated request gives (backend/src/yitu/payments/service.py).
use yitu.Base.{
  ℕ, ◌+◌, ◌≡◌, sym, ap, ◌∙◌, true, false, none, some, [], ◌∷◌, ◌++◌, List, arith, ◌⊎◌, inl, inr,
  Option-cases, sum_by-append,
}
use yitu.Dispatch.{create_pickup_task}
use yitu.Payments.{
  paid_total, paid_amount, pay_operation, pay_quote, quote_and_shipment, supplement_operation,
  resume_supplemented, pay_supplement, open_pickup, paid_target,
}
use yitu.Platform.Errors.{Result, ok, is_ok}
use yitu.Platform.Idempotency.{execute, find_record}
use yitu.Platform.Idempotency.Replay.{execute_replay}
use yitu.Platform.Json.{Key, lit, ident, ◌⊹◌}
use yitu.Platform.Outbox.{append}
use yitu.Shipments.Control.{lock_and_assert_fulfillment_allowed, lock_shipment, is_blocked}
use yitu.Shipments.Enums.{ShipmentStatus, pending_payment, pickup_assigned, status_eq}
use yitu.Shipments.Transition.Frame.{transition-MovesOnly, transition-found}
use yitu.Shipments.Transition.{transition}
use yitu.Store.Queries.{find_quote, find_shipment, find_shipment-id}
use yitu.Store.Catalog.{QuoteSnapshot}
use yitu.Store.Rows.{
  CurrentUser, Shipment, PaymentTransaction, payment, supplement, IdempotencyResponse,
}
use yitu.Store.Session.{Session, Action}

paid_total-add :
    (k : ℕ) (ps : List PaymentTransaction) (p : PaymentTransaction)
    → paid_total k (ps ++ p ∷ []) ≡ paid_total k ps + paid_amount k p
unfolding paid_total
paid_total-add k ps p = omega (arith, sum_by-append (paid_amount k) ps (p ∷ []))

module _ (quote : QuoteSnapshot) (amount : ℕ) (actor : CurrentUser) (key : Key) (s : Session) where
  abbrev pub payment_row : Shipment → PaymentTransaction
  payment_row shipment = record {
    payment_id = s.next_id;
    payer_id = actor.user_id;
    payment_quote = some quote.quote_row;
    payment_shipment = some shipment.id;
    related_transaction_id = none;
    transaction_type = payment;
    succeeded = true;
    amount_cents = amount;
    payment_key = key;
    paid_at = s.now;
  }

  -- The session in which a shipment's payment has been added.
  abbrev with_payment : Shipment → Session
  with_payment shipment = record s {
    next_id = s.next_id + 1;
    payments = s.payments ++ payment_row shipment ∷ [];
  }

  pay-writes :
      (k : ℕ) {shipment : Shipment}
      → find_shipment k s.shipments ≡ some shipment
      → let t = (pay_operation quote k amount actor key s).1 in
        (t.idempotency ≡ s.idempotency) × (t.quotes ≡ s.quotes)
  unfolding pay_operation open_pickup create_pickup_task append lock_and_assert_fulfillment_allowed
      lock_shipment
  pay-writes k {shipment} f =
      let m =
        transition-MovesOnly shipment (paid_target shipment.pickup_method) actor "confirm_payment"
          (lit "payment:" ⊹ ident shipment.id) (with_payment shipment) in
      (ground (arith, m), ground (arith, m))

  pay-shipments :
      (k : ℕ) {shipment : Shipment} {r : IdempotencyResponse} {t : Session}
      → find_shipment k s.shipments ≡ some shipment
      → pay_operation quote k amount actor key s ≡ (ok r, t)
      → t.shipments
        ≡ (transition shipment
            (paid_target shipment.pickup_method)
            actor
            "confirm_payment"
            (lit "payment:" ⊹ ident shipment.id)
            (with_payment shipment)).1.shipments
  unfolding pay_operation open_pickup create_pickup_task append lock_and_assert_fulfillment_allowed
      lock_shipment
  pay-shipments k {shipment} {r} {t} f h = ground arith

  pay-payments :
      (k : ℕ) {shipment : Shipment} {r : IdempotencyResponse} {t : Session}
      → find_shipment k s.shipments ≡ some shipment
      → pay_operation quote k amount actor key s ≡ (ok r, t)
      → t.payments ≡ s.payments ++ payment_row shipment ∷ []
  unfolding pay_operation open_pickup create_pickup_task append lock_and_assert_fulfillment_allowed
      lock_shipment
  pay-payments k {shipment} {r} {t} f h = ground (
    arith,
    transition-MovesOnly shipment (paid_target shipment.pickup_method) actor "confirm_payment"
        (lit "payment:" ⊹ ident shipment.id) (with_payment shipment),
  )

  pay-guards :
      (k : ℕ) {shipment : Shipment} {r : IdempotencyResponse} {t : Session}
      → find_shipment k s.shipments ≡ some shipment
      → pay_operation quote k amount actor key s ≡ (ok r, t)
      → (status_eq shipment.status pending_payment ≡ true) × (is_blocked k s.holds ≡ false)
  unfolding pay_operation lock_and_assert_fulfillment_allowed lock_shipment
  pay-guards k {shipment} {r} {t} f h = (ground arith, ground arith)

  -- A payment that is carried out is for a shipment that waits for its payment and has no active
  -- hold, and raises what is paid for it by exactly the amount.
  pub pay_adds_amount :
      (k : ℕ) {shipment : Shipment} {r : IdempotencyResponse} {t : Session}
      → find_shipment k s.shipments ≡ some shipment
      → pay_operation quote k amount actor key s ≡ (ok r, t)
      → (paid_total k t.payments ≡ paid_total k s.payments + amount)
        × (status_eq shipment.status pending_payment ≡ true)
        × (is_blocked k s.holds ≡ false)
  pay_adds_amount k {shipment} {r} {t} f h =
      let id : shipment.id ≡ k = find_shipment-id k s.shipments f in
      let (a, b) = pay-guards k f h in
      (
        rw (pay-payments k f h)
            (ground (arith, paid_total-add k s.payments (payment_row shipment))),
        a,
        b,
      )

module _ (quote : QuoteSnapshot) (shipment : Shipment) (amount : ℕ) (actor : CurrentUser)
    (key : Key) (s : Session) where
  abbrev pub supplement_row : PaymentTransaction
  supplement_row = record {
    payment_id = s.next_id;
    payer_id = actor.user_id;
    payment_quote = some quote.quote_row;
    payment_shipment = some shipment.id;
    related_transaction_id = none;
    transaction_type = supplement;
    succeeded = true;
    amount_cents = amount;
    payment_key = key;
    paid_at = s.now;
  }

  supplement-writes :
      let t = (supplement_operation quote shipment amount actor key s).1 in
      (t.payments ≡ s.payments ++ supplement_row ∷ []) × (t.quotes ≡ s.quotes)
  unfolding supplement_operation resume_supplemented
  supplement-writes =
      let m =
        transition-MovesOnly shipment pickup_assigned actor "pay_supplement"
          (lit "supplement:" ⊹ ident shipment.id ⊹ lit ":" ⊹ ident quote.quote_row)
          (record s { next_id = s.next_id + 1; payments = s.payments ++ supplement_row ∷ [] }) in
      (ground (arith, m), ground (arith, m))

execute-run :
    (scope key : Key) (request_hash : ℕ) (operation : Action IdempotencyResponse) (s : Session)
    {r : IdempotencyResponse} {t : Session}
    → execute scope key request_hash operation s ≡ (ok r, t)
    → (t ≡ s)
      ⊎ ((u : Session) × (operation s ≡ (ok r, u))
          × (t.shipments ≡ u.shipments)
          × (t.quotes ≡ u.quotes))
unfolding execute
execute-run scope key request_hash operation s {r} {t} h =
    elim (Option-cases (find_record scope key s.idempotency)) [
      | inr (x, f) ↦ inl (ground arith)
      | inl f ↦ inr ((operation s).1, ground arith, ground arith, ground arith)
    ]

module _ (quote_id k amount : ℕ) (actor : CurrentUser) (key : Key) (request_hash : ℕ) (s : Session)
    {quote : QuoteSnapshot} {shipment : Shipment} {r : IdempotencyResponse} {t : Session} where
  supplement-run :
      find_quote quote_id s.quotes ≡ some quote
      → find_shipment k s.shipments ≡ some shipment
      → find_record (lit "payment:supplement:" ⊹ ident actor.user_id) key s.idempotency ≡ none
      → pay_supplement quote_id k amount actor key request_hash s ≡ (ok r, t)
      → (amount + paid_total shipment.id s.payments ≡ quote.quote_total_cents)
        × (t.payments ≡ (supplement_operation quote shipment amount actor key s).1.payments)
        × (t.quotes ≡ (supplement_operation quote shipment amount actor key s).1.quotes)
  unfolding pay_supplement execute quote_and_shipment lock_shipment
  supplement-run q f n h = (ground arith, ground arith, ground arith)

  -- A supplement that is carried out, under a key for which no response was kept, settles the
  -- quote: what is paid for the shipment is then the quote's total.
  pub supplement_settles :
      find_quote quote_id s.quotes ≡ some quote
      → find_shipment k s.shipments ≡ some shipment
      → find_record (lit "payment:supplement:" ⊹ ident actor.user_id) key s.idempotency ≡ none
      → pay_supplement quote_id k amount actor key request_hash s ≡ (ok r, t)
      → paid_total k t.payments ≡ quote.quote_total_cents
  supplement_settles q f n h =
      let (a, p, _) = supplement-run q f n h in
      let (w, _) = supplement-writes quote shipment amount actor key s in
      let id : shipment.id ≡ k = find_shipment-id k s.shipments f in
      let e = paid_total-add k s.payments (supplement_row quote shipment amount actor key s) in
      rw (p, w) (ground (arith, e))

  -- A supplement that is carried out, under a key for which no response was kept, is refused
  -- when its request is repeated with the same key: the call raises.
  pub supplement_not_replayed :
      find_quote quote_id s.quotes ≡ some quote
      → find_shipment k s.shipments ≡ some shipment
      → find_record (lit "payment:supplement:" ⊹ ident actor.user_id) key s.idempotency ≡ none
      → pay_supplement quote_id k amount actor key request_hash s ≡ (ok r, t)
      → is_ok (pay_supplement quote_id k amount actor key request_hash t).0 ≡ false
  unfolding pay_supplement quote_and_shipment lock_shipment
  supplement_not_replayed q f n h =
      let paid = supplement_settles q f n h in
      let (_, _, e) = supplement-run q f n h in
      let (_, w) = supplement-writes quote shipment amount actor key s in
      let quotes : t.quotes ≡ s.quotes = e ∙ w in
      let q' : find_quote quote_id t.quotes ≡ some quote = rw quotes q in
      elim (Option-cases (find_shipment k t.shipments)) [
        | inl g ↦ ground arith
        | inr (later, g) ↦ let id : later.id ≡ k = find_shipment-id k t.shipments g in ground arith
      ]

  pay-run :
      find_quote quote_id s.quotes ≡ some quote
      → find_shipment k s.shipments ≡ some shipment
      → pay_quote quote_id k amount actor key request_hash s ≡ (ok r, t)
      → (amount ≡ quote.quote_total_cents)
        × (execute
              (lit "payment:pay:" ⊹ ident actor.user_id)
              key
              request_hash
              (pay_operation quote shipment.id amount actor key)
              s
            ≡ (ok r, t))
  unfolding pay_quote quote_and_shipment lock_shipment
  pay-run q f h = (ground arith, ground arith)

  pay_quote-columns :
      find_quote quote_id s.quotes ≡ some quote
      → find_shipment k s.shipments ≡ some shipment
      → execute
          (lit "payment:pay:" ⊹ ident actor.user_id)
          key
          request_hash
          (pay_operation quote k amount actor key)
          s
        ≡ (ok r, t)
      → (find_quote quote_id t.quotes ≡ some quote)
        × ((status : ShipmentStatus) × (find_shipment k t.shipments
              ≡ some (record shipment { status = status })))
  pay_quote-columns q f x = elim (execute-run _ _ _ _ _ x) [
    | inl e ↦ (rw e q, (shipment.status, rw e f))
    | inr (u, o, ships, quotes) ↦
        let (_, w) = pay-writes quote amount actor key s k f in
        let p = pay-shipments quote amount actor key s k f o in
        let (status, g) =
          transition-found k shipment (paid_target shipment.pickup_method) actor "confirm_payment"
            (lit "payment:" ⊹ ident shipment.id) (with_payment quote amount actor key s shipment)
            f in
        (
          rw (quotes, sym (ap (λ (y : Result IdempotencyResponse × Session). y.1.quotes) o), w) q,
          (status, rw (ships, p) g),
        )
  ]

  pay-again :
      (status : ShipmentStatus)
      → find_quote quote_id s.quotes ≡ some quote
      → find_shipment k s.shipments ≡ some shipment
      → pay_quote quote_id k amount actor key request_hash s ≡ (ok r, t)
      → find_quote quote_id t.quotes ≡ some quote
      → find_shipment k t.shipments ≡ some (record shipment { status = status })
      → pay_quote quote_id k amount actor key request_hash t
        ≡ execute
            (lit "payment:pay:" ⊹ ident actor.user_id)
            key
            request_hash
            (pay_operation quote shipment.id amount actor key)
            t
  unfolding pay_quote quote_and_shipment lock_shipment
  pay-again status q f h q' f' = ground arith

  -- A payment that returned can be sent again at once: under the same key and hash it gives the same
  -- response and writes nothing more.
  pub pay_quote_once :
      find_quote quote_id s.quotes ≡ some quote
      → find_shipment k s.shipments ≡ some shipment
      → pay_quote quote_id k amount actor key request_hash s ≡ (ok r, t)
      → pay_quote quote_id k amount actor key request_hash t ≡ (ok r, t)
  pay_quote_once q f h =
      let id : shipment.id ≡ k = find_shipment-id k s.shipments f in
      let (a, x) = pay-run q f h in
      let x' : execute (lit "payment:pay:" ⊹ ident actor.user_id) key request_hash
            (pay_operation quote k amount actor key) s
          ≡ (ok r, t) =
        rw (sym id) x in
      let (q', (status, f')) = pay_quote-columns q f x' in
      let (w, _) = pay-writes quote amount actor key s k f in
      pay-again status q f h q' f'
      ∙ execute_replay (lit "payment:pay:" ⊹ ident actor.user_id) key request_hash
          (pay_operation quote k amount actor key) s
          (pay_operation quote shipment.id amount actor key) w x'
