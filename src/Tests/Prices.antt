-- ===== src/Tests/Prices.antt =====
-- The rules, the quotes and the shipments that they price, at examples.
use yitu.Base.{
  ℕ, ◌+◌, ◌-◌, ◌≡◌, refl, true, none, some, [], ◌∷◌, ◌++◌, not, false, ◌&&◌, ◌==◌, arith,
}
use yitu.Base.Table.{by_key, put_row}
use yitu.Identity.{role_is}
use yitu.Payments.{pay_supplement, quote_and_shipment, paid_total}
use yitu.Platform.Errors.{err, supplement_amount_mismatch}
use yitu.Platform.Json.{lit}
use yitu.Platform.Outbox.{append}
use yitu.Pricing.Policy.{
  bj_sh, calculate_quote, validate_input, route_code, volume_weight, billable_weight, fee_items,
  billed_units, sum_amounts,
}
use yitu.Base.Int.{◌+ℤ◌}
use yitu.Pricing.Service
use yitu.Pricing.Service.{Measures, route_eq, add_quote}
use yitu.Pricing.Service.Quotes.{IsRepriced, reweigh-IsRepriced}
use yitu.Shipments.Application.{
  Declared, declaration, declared, load_address, owned_quote, quoted_for, station_for,
  write_shipment, create_operation,
}
use yitu.Store.Drafts.{ShipmentDraft}
use yitu.Shipments.Application.Creation.{create_operation-bound}
use yitu.Shipments.Control.{lock_shipment}
use yitu.Shipments.Enums.{
  pending_payment, picked_up, pickup_assigned, home_delivery, door_pickup, customer,
}
use yitu.Shipments.Reweigh
use yitu.Shipments.Reweigh.{settle_difference, refunded_total}
use yitu.Shipments.Reweigh.Settlement.{IsSettled, reweigh-IsSettled, refunded-supplement_refused}
use yitu.Shipments.Views.{ShipmentReadView, get_detail, detail_scope, build_detail}
use yitu.Shipments.Views.Visibility.{may_see, get_detail-may_see}
use yitu.Store.Catalog.{PricingRule, QuoteSnapshot, ShipmentPackage}
use yitu.Store.Queries.{find_shipment, find_quote, find_pricing_rule, find_package, put_package}
use yitu.Store.Rows.{Shipment, PaymentTransaction, refund}
use yitu.Store.Session.{Session}
use yitu.Tests.Data.{alice, bob, parcel, quote, paid, store}

abbrev rule : ℕ → ℕ → PricingRule
rule id from = record {
  pricing_rule_id = id;
  pricing_version = "v1";
  pricing_route = bj_sh;
  base_cents = 1200;
  additional_cents = 500;
  remote_cents = 0;
  valid_from = from;
  valid_to = none;
}

abbrev box : ShipmentPackage
box = record {
  package_row = 80;
  package_category = lit "books";
  package_description = lit "two books";
  estimated_weight = 900;
  estimated_length = 10;
  estimated_width = 10;
  estimated_height = 10;
  declared_value_cents = 0;
  special_instructions = none;
  weighed = none;
  reweighed_by = none;
  reweighed_at = none;
}

abbrev refunded : PaymentTransaction
refunded = record paid { payment_id = 61; transaction_type = refund; amount_cents = 300 }

abbrev weighable : Session
weighable =
    record (store (record (parcel pickup_assigned home_delivery) { package_id = some 80 }) [] []
      (paid ∷ [])) { packages = box ∷ []; pricing_rules = rule 21 0 ∷ [] }

abbrev measured : Measures
measured = record { weight = 2100; length = 10; width = 10; height = 10 }

abbrev reweighed : Session
reweighed = (Reweigh.reweigh 5 measured bob weighable).1

abbrev new_quote : QuoteSnapshot
new_quote = record quote {
  quote_row = 100;
  source_quote = some 20;
  quote_input = record quote.quote_input { actual_weight_grams = 2100 };
  quote_items =
      fee_items (record quote.quote_input { actual_weight_grams = 2100 })
        (Service.rule_data (rule 21 0));
  quote_billable_grams = 2100;
  quote_total_cents = 3000;
  quoted_at = 1000;
}

weighed_example :
    (r : Shipment) × (find_shipment 5 reweighed.shipments ≡ some r)
    × (r.quote_id ≡ some 100)
    × IsSettled new_quote r reweighed.payments
unfolding Reweigh.reweigh find_shipment find_package find_quote find_pricing_rule put_package by_key
    put_row Service.reweigh add_quote settle_difference append paid_total refunded_total
    calculate_quote validate_input route_code volume_weight billable_weight fee_items billed_units
    sum_amounts ◌+ℤ◌
weighed_example = reweigh-IsSettled 5 measured bob weighable {q = new_quote} {t = reweighed} refl

abbrev refunded_store : Session
refunded_store = store (parcel pickup_assigned home_delivery) [] [] (paid ∷ refunded ∷ [])

refused_example :
    let owed =
      1500 + refunded_total 5 refunded_store.payments - paid_total 5 refunded_store.payments in
    pay_supplement 20 5 owed alice (lit "k") 7 refunded_store
    ≡ (err supplement_amount_mismatch, refunded_store)
unfolding quote_and_shipment find_quote by_key lock_shipment find_shipment refunded_total
refused_example =
    refunded-supplement_refused 20 5 alice (lit "k") 7 refunded_store {q = quote}
      {r = parcel pickup_assigned home_delivery} refl refl (omega arith)

heavier_example :
    (old : QuoteSnapshot) × (r : PricingRule) × (find_quote 20 weighable.quotes ≡ some old)
    × (find_pricing_rule old.quote_rule weighable.pricing_rules ≡ some r)
    × ((role_is bob.role customer && not (old.quote_owner == 2)) ≡ false)
    × IsRepriced old measured r new_quote
    × ((Service.reweigh 20 measured bob weighable).1.quotes ≡ weighable.quotes ++ new_quote ∷ [])
    × (find_quote 20 (Service.reweigh 20 measured bob weighable).1.quotes ≡ some old)
unfolding Service.reweigh find_quote find_pricing_rule by_key add_quote calculate_quote
    validate_input route_code volume_weight billable_weight fee_items billed_units sum_amounts ◌+ℤ◌
heavier_example =
    reweigh-IsRepriced 20 measured bob weighable {new = new_quote}
      {t = (Service.reweigh 20 measured bob weighable).1} refl

abbrev draft : ShipmentDraft
draft = record {
  sender_id = none;
  receiver_id = none;
  origin_id = some 10;
  destination_id = some 10;
  draft_pickup = door_pickup;
  draft_delivery = home_delivery;
  draft_quote = some 20;
  category = some (lit "books");
  contents = some (lit "two books");
  weight_grams = some 900;
  length_in_cm = some 10;
  width_in_cm = some 10;
  height_in_cm = some 10;
  instructions = none;
}

abbrev created : Session
created = (create_operation draft alice weighable).1

create_example :
    (x : Shipment) × (created.shipments ≡ weighable.shipments ++ x ∷ [])
    × (x.status ≡ pending_payment)
    × (x.owner_id ≡ 1)
    × ((i : ℕ) × (q : QuoteSnapshot) × (d : Declared) × (some 20 ≡ some i)
        × (find_quote i weighable.quotes ≡ some q)
        × (q.quote_owner ≡ 1)
        × (declaration draft ≡ some d)
        × (quoted_for q.quote_input d.sizes ≡ true)
        × (x.quote_id ≡ some q.quote_row))
unfolding create_operation load_address declared owned_quote find_quote by_key quoted_for
    station_for write_shipment append
create_example = create_operation-bound draft alice weighable {t = created} refl

abbrev shown : ShipmentReadView
shown =
    build_detail (parcel picked_up home_delivery) (store (parcel picked_up home_delivery) [] [] [])

detail_example :
    let s = store (parcel picked_up home_delivery) [] [] [] in
    (shown.of_shipment.id ≡ 5) × (may_see customer alice shown.of_shipment s.tasks ≡ true) × (s ≡ s)
unfolding get_detail detail_scope build_detail
detail_example =
    get_detail-may_see 5 alice (store (parcel picked_up home_delivery) [] [] []) {v = shown} refl
