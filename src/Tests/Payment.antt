-- ===== src/Tests/Payment.antt =====
-- Payments, at examples.
use yitu.Base.{◌≡◌, refl, false, none, some, [], ◌∷◌}
use yitu.Base.Table.{by_key, put_row}
use yitu.Dispatch.{create_pickup_task}
use yitu.Payments.{
  pay_operation, pay_quote, quote_and_shipment, open_pickup, pay_supplement, supplement_operation,
  resume_supplemented, paid_total, created,
}
use yitu.Payments.Totals.{pay_quote_once, supplement_not_replayed, payment_row, supplement_row}
use yitu.Platform.Audit.{audit_record}
use yitu.Platform.Errors.{ok, is_ok}
use yitu.Platform.Idempotency.{execute, find_record}
use yitu.Platform.Json.{lit, ident, ◌⊹◌}
use yitu.Platform.Outbox.{append}
use yitu.Shipments.Control.{lock_shipment, lock_and_assert_fulfillment_allowed, is_blocked}
use yitu.Shipments.Enums.{pending_payment, pending_pickup, home_delivery}
use yitu.Shipments.StateMachine
use yitu.Shipments.Transition.{transition, record_transition}
use yitu.Sla.Service.{
  sync_shipment_transition, finish_stages, start, rule_or_default, choose_rule, find_stage,
}
use yitu.Store.Queries.{find_shipment, find_quote, put_shipment}
use yitu.Store.Rows.{IdempotencyResponse}
use yitu.Store.Session.{Session}
use yitu.Tests.Data.{alice, parcel, quote, paid, store}
use yitu.Tracking.{find_event, append_tracking_event, add_event, latest_sequence}

abbrev unpaid : Session
unpaid = store (parcel pending_payment home_delivery) [] [] []

abbrev pay_response : IdempotencyResponse
pay_response =
    created (payment_row quote 1500 alice (lit "k") unpaid (parcel pending_payment home_delivery))

abbrev after_pay : Session
after_pay = (pay_quote 20 5 1500 alice (lit "k") 9 unpaid).1

found-quote : find_quote 20 unpaid.quotes ≡ some quote
unfolding find_quote by_key
found-quote = refl

found-unpaid : find_shipment 5 unpaid.shipments ≡ some (parcel pending_payment home_delivery)
unfolding find_shipment by_key
found-unpaid = refl

pay-ok : pay_quote 20 5 1500 alice (lit "k") 9 unpaid ≡ (ok pay_response, after_pay)
unfolding pay_quote quote_and_shipment execute find_record pay_operation open_pickup
    create_pickup_task lock_shipment lock_and_assert_fulfillment_allowed is_blocked
    StateMachine.transition transition record_transition sync_shipment_transition finish_stages
    start rule_or_default choose_rule find_stage by_key put_row find_quote find_shipment
    put_shipment find_event append_tracking_event add_event latest_sequence append audit_record
pay-ok = refl

pay_once_example : pay_quote 20 5 1500 alice (lit "k") 9 after_pay ≡ (ok pay_response, after_pay)
pay_once_example = pay_quote_once 20 5 1500 alice (lit "k") 9 unpaid found-quote found-unpaid pay-ok

abbrev after_operation : Session
after_operation = (pay_operation quote 5 1500 alice (lit "k") unpaid).1

operation-ok :
    pay_operation quote 5 1500 alice (lit "k") unpaid ≡ (ok pay_response, after_operation)
unfolding pay_operation open_pickup create_pickup_task lock_shipment
    lock_and_assert_fulfillment_allowed is_blocked StateMachine.transition transition
    record_transition sync_shipment_transition finish_stages start rule_or_default choose_rule
    find_stage by_key put_row find_shipment put_shipment find_event append_tracking_event add_event
    latest_sequence append audit_record
operation-ok = refl

abbrev underpaid : Session
underpaid = store (parcel pending_pickup home_delivery) [] [] (paid ∷ [])

abbrev supplement_response : IdempotencyResponse
supplement_response =
    created
      (supplement_row quote (parcel pending_pickup home_delivery) 300 alice (lit "k") underpaid)

abbrev after_supplement : Session
after_supplement = (pay_supplement 20 5 300 alice (lit "k") 9 underpaid).1

found-underpaid : find_shipment 5 underpaid.shipments ≡ some (parcel pending_pickup home_delivery)
unfolding find_shipment by_key
found-underpaid = refl

no-record : find_record (lit "payment:supplement:" ⊹ ident 1) (lit "k") underpaid.idempotency ≡ none
unfolding find_record
no-record = refl

supplement-ok :
    pay_supplement 20 5 300 alice (lit "k") 9 underpaid ≡ (ok supplement_response, after_supplement)
unfolding pay_supplement quote_and_shipment execute find_record supplement_operation
    resume_supplemented paid_total lock_shipment by_key find_quote find_shipment
supplement-ok = refl

not_replayed_example : is_ok (pay_supplement 20 5 300 alice (lit "k") 9 after_supplement).0 ≡ false
not_replayed_example =
    supplement_not_replayed 20 5 300 alice (lit "k") 9 underpaid found-quote found-underpaid
      no-record supplement-ok
