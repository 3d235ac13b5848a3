-- ===== src/Shipments/Application.antt =====
-- backend/src/yitu/shipments/service.py, `ShipmentApplicationService`: a shipment is created, and is
-- priced anew when the courier has weighed it.
pub mod Creation
use Prim.Native.String.{String}
use yitu.Base.{
  ℕ, ◌+◌, Bool, true, false, ◌&&◌, ◌||◌, not, Option, none, some, List, [], ◌∷◌, ◌++◌, sum_by,
  is_some, ltb, leb, ◌==◌, opt_eq, if◌then◌else◌,
}
use yitu.Base.Int.{ℤ, pos, negsuc, sub_ℕ}
use yitu.Identity.{require_role, require_resource_owner}
use yitu.Payments.{paid_total, is_paid, optional_id, add_payment}
use yitu.Platform.Errors.{
  station_dropoff_disabled, station_pickup_disabled, quote_required, package_required,
  quote_not_found, quote_input_mismatch, shipment_package_required, value_error,
}
use yitu.Platform.Idempotency.{execute}
use yitu.Platform.Json.{Key, lit, ident, ◌⊹◌, Object, str, number, fields}
use yitu.Platform.Outbox.{append}
use yitu.Pricing.Policy.{PricingInput}
use yitu.Pricing.Service
use yitu.Pricing.Service.{Measures}
use yitu.Shipments.Control.{save_shipment}
use yitu.Shipments.Enums.{
  ShipmentStatus, PickupMethod, DeliveryMethod, door_pickup, station_dropoff, home_delivery,
  station_pickup, pending_payment, awaiting_supplement, pickup_assigned, status_eq, courier,
}
use yitu.Shipments.Transition.{status_text, shipment_key}
use yitu.Stations.{match_station}
use yitu.Store.Catalog.{Address, QuoteSnapshot, ShipmentPackage}
use yitu.Store.Drafts.{ShipmentDraft}
use yitu.Store.Queries.{find_address, find_quote, find_package, put_package, find_shipment}
use yitu.Store.Rows.{CurrentUser, Shipment, PaymentTransaction, refund, IdempotencyResponse}
use yitu.Store.Session.{Action, new_id, modify, gets, raise, or_raise, raise_if, pure, ◌>>=◌, ◌>>◌}

abbrev pub is_dropoff : PickupMethod → Bool
is_dropoff door_pickup = false
is_dropoff station_dropoff = true

abbrev pub is_collected : DeliveryMethod → Bool
is_collected home_delivery = false
is_collected station_pickup = true

-- An address that the draft names: it must be there.
unfoldable pub load_address : Option ℕ → Action (Option Address)
load_address none = pure none
load_address (some address_id) = do
  row ← or_raise (← gets (λ s. find_address address_id s.addresses)) value_error
  pure (some row)

abbrev pub require_address_owner : Option Address → CurrentUser → Action (Unit {0})
require_address_owner none actor = pure tt
require_address_owner (some a) actor = require_resource_owner a.address_owner actor

-- What a draft declares of its package, when it declares all of it.
pub record Declared : Type 0 where
  pub kind : Key
  pub what : Key
  pub sizes : Measures

unfoldable pub declared :
    Option Key → Option Key → Option ℕ → Option ℕ → Option ℕ → Option ℕ → Option Declared
declared (some c) (some d) (some w) (some l) (some b) (some h) = some (record {
  kind = c;
  what = d;
  sizes = record { weight = w; length = l; width = b; height = h };
})
declared _ _ _ _ _ _ = none

abbrev pub declaration : ShipmentDraft → Option Declared
declaration d =
    declared d.category d.contents d.weight_grams d.length_in_cm d.width_in_cm d.height_in_cm

-- Whether a quote was made for the measures.
unfoldable pub quoted_for : PricingInput → Measures → Bool
quoted_for payload m =
    ((payload.actual_weight_grams == m.weight) && (payload.length_cm == m.length))
    && ((payload.width_cm == m.width) && (payload.height_cm == m.height))

-- The customer's quote.
unfoldable pub owned_quote : Option ℕ → CurrentUser → Action QuoteSnapshot
owned_quote none actor = raise quote_not_found
owned_quote (some quote_id) actor = do
  q ← or_raise (← gets (λ s. find_quote quote_id s.quotes)) quote_not_found
  raise_if (not (q.quote_owner == actor.user_id)) quote_not_found
  pure q

-- The station of an end of the shipment: matched to the address, when there is one.
unfoldable pub station_for : Bool → Option Address → String → Option ℕ → Action (Option ℕ)
station_for true (some a) service_type given = do
  station ← match_station a.address_district service_type
  pure (some station.station_row)
station_for _ _ service_type given = pure given

abbrev pub package_of : ℕ → Declared → Option Key → ShipmentPackage
package_of package_id d instructions = record {
  package_row = package_id;
  package_category = d.kind;
  package_description = d.what;
  estimated_weight = d.sizes.weight;
  estimated_length = d.sizes.length;
  estimated_width = d.sizes.width;
  estimated_height = d.sizes.height;
  declared_value_cents = 0;
  special_instructions = instructions;
  weighed = none;
  reweighed_by = none;
  reweighed_at = none;
}

abbrev address_id_of : Option Address → Option ℕ
address_id_of none = none
address_id_of (some a) = some a.address_row

abbrev method_text : DeliveryMethod → String
method_text home_delivery = "HOME_DELIVERY"
method_text station_pickup = "STATION_PICKUP"

-- `ShipmentView`
abbrev pub shipment_view : Shipment → Object
shipment_view r =
    ("id", str (ident r.id))
    ∷ ("shipment_no", str r.shipment_no)
    ∷ ("owner_id", str (ident r.owner_id))
    ∷ ("status", str (lit (status_text r.status)))
    ∷ ("delivery_method", str (lit (method_text r.delivery_method)))
    ∷ ("quote_id", optional_id r.quote_id)
    ∷ ("package_id", optional_id r.package_id)
    ∷ ("created_at", number r.created_at)
    ∷ []

-- The rows of a new shipment, and the event of its creation. The number is f"YT…" of a fresh UUID.
unfoldable pub write_shipment :
    ShipmentDraft
    → Declared
    → Option Address
    → Option Address
    → Option ℕ
    → Option ℕ
    → QuoteSnapshot
    → CurrentUser
    → Action Shipment
write_shipment draft d sender receiver origin destination quote actor = do
  package_id ← new_id
  number_id ← new_id
  shipment_id ← new_id
  now ← gets (λ s. s.now)
  let shipment : Shipment = record {
    id = shipment_id;
    shipment_no = lit "YT" ⊹ ident number_id;
    owner_id = actor.user_id;
    sender_address_id = address_id_of sender;
    receiver_address_id = address_id_of receiver;
    origin_station_id = origin;
    destination_station_id = destination;
    pickup_method = draft.draft_pickup;
    delivery_method = draft.draft_delivery;
    status = pending_payment;
    quote_id = some quote.quote_row;
    package_id = some package_id;
    created_at = now;
  }
  modify (λ s. record s {
    packages = s.packages ++ package_of package_id d draft.instructions ∷ [];
    shipments = s.shipments ++ shipment ∷ [];
  })
  append "shipment.created" (shipment_key shipment_id)
      (("shipment_id", str (ident shipment_id)) ∷ ("shipment_no", str shipment.shipment_no) ∷ [])
      (shipment_key shipment_id ⊹ lit ":created")
  pure shipment

unfoldable pub create_operation : ShipmentDraft → CurrentUser → Action IdempotencyResponse
create_operation draft actor = do
  sender ← load_address draft.sender_id
  receiver ← load_address draft.receiver_id
  require_address_owner sender actor
  require_address_owner receiver actor
  raise_if (not (is_some draft.draft_quote)) quote_required
  d ← or_raise (declaration draft) package_required
  quote ← owned_quote draft.draft_quote actor
  raise_if (not (quoted_for quote.quote_input d.sizes)) quote_input_mismatch
  origin ← station_for (not (is_dropoff draft.draft_pickup)) sender "HOME_PICKUP" draft.origin_id
  destination ←
      station_for (not (is_collected draft.draft_delivery)) receiver "HOME_DELIVERY"
        draft.destination_id
  shipment ← write_shipment draft d sender receiver origin destination quote actor
  pure (record { status_code = 201; body = shipment_view shipment })

unfoldable pub create : ShipmentDraft → CurrentUser → Key → ℕ → Action IdempotencyResponse
create draft actor key request_hash = do
  raise_if (is_dropoff draft.draft_pickup) station_dropoff_disabled
  raise_if (is_collected draft.draft_delivery) station_pickup_disabled
  execute (lit "shipment:create:" ⊹ ident actor.user_id) key request_hash
      (create_operation draft actor)
