-- ===== src/Agent/Validation.antt =====
-- backend/src/yitu/agent/domain/drafts.py, `validate` and `validate_and_quote`, and
-- `get_owned_address` of backend/src/yitu/addresses/service.py. A text of a payload is not longer
-- than `DraftPatch` lets it be, which is what `ShipmentDraft` allows too. The hash of a quote
-- request is a parameter.
pub mod Complete
use Prim.Native.String.{String}
use yitu.Base.{
  ℕ, Bool, false, not, ltb, length, ◌==◌, ◌&&◌, Option, none, some, ◌∷◌, is_some, if◌then◌else◌,
}
use yitu.Agent.Drafts.{get_or_create, with_methods, missing_fields, is_missing, save_draft}
use yitu.Identity.{require_resource_owner}
use yitu.Platform.Errors.{
  address_not_found, station_dropoff_disabled, station_pickup_disabled, shipment_draft_incomplete,
  shipment_draft_invalid, lookup_error, value_error,
}
use yitu.Platform.Json.{Key, lit, ident, ◌⊹◌, Object, str}
use yitu.Pricing.Policy.{PricingInput}
use yitu.Pricing.Service
use yitu.Shipments.Application.{is_dropoff, is_collected}
use yitu.Shipments.Enums.{
  PickupMethod, DeliveryMethod, door_pickup, station_dropoff, home_delivery, station_pickup,
}
use yitu.Store.Catalog.{Address}
use yitu.Store.Drafts.{
  ShipmentDraft, DraftPatch, Payload, AgentShipmentDraft, ready_for_confirmation,
}
use yitu.Store.Queries.{find_address}
use yitu.Store.Rows.{CurrentUser}
use yitu.Store.Session.{Action, gets, or_raise, raise_if, pure, ◌>>=◌, ◌>>◌}

-- The address that is not deleted.
abbrev pub present : Option Address → Option Address
present none = none
present (some a) = if is_some a.address_deleted then none else some a

unfoldable pub get_owned_address : ℕ → CurrentUser → Action Address
get_owned_address address_id actor = do
  a ← or_raise (← gets (λ s. present (find_address address_id s.addresses))) address_not_found
  require_resource_owner a.address_owner actor
  pure a

-- The address of an entry, when there is one.
unfoldable pub check_address : Option ℕ → CurrentUser → Action (Unit {0})
check_address none actor = pure tt
check_address (some address_id) actor = do get_owned_address address_id actor; pure tt

abbrev pub asks_dropoff : Option PickupMethod → Bool
asks_dropoff none = false
asks_dropoff (some m) = is_dropoff m

abbrev pub asks_collection : Option DeliveryMethod → Bool
asks_collection none = false
asks_collection (some m) = is_collected m

abbrev pub shipment_draft : PickupMethod → DeliveryMethod → DraftPatch → Option ℕ → ShipmentDraft
shipment_draft pickup delivery p quote = record {
  sender_id = p.sender_address;
  receiver_id = p.receiver_address;
  origin_id = p.origin_station;
  destination_id = p.destination_station;
  draft_pickup = pickup;
  draft_delivery = delivery;
  draft_quote = quote;
  category = p.package_category;
  contents = p.package_description;
  weight_grams = p.estimated_weight;
  length_in_cm = p.estimated_length;
  width_in_cm = p.estimated_width;
  height_in_cm = p.estimated_height;
  instructions = p.special_instructions;
}

abbrev pub has_origin : PickupMethod → ShipmentDraft → Bool
has_origin door_pickup d = is_some d.sender_id
has_origin station_dropoff d = is_some d.origin_id

abbrev pub has_destination : DeliveryMethod → ShipmentDraft → Bool
has_destination home_delivery d = is_some d.receiver_id
has_destination station_pickup d = is_some d.destination_id

-- `validate_service_combination`
unfoldable pub validate_service_combination : ShipmentDraft → Option ShipmentDraft
validate_service_combination d =
    if has_origin d.draft_pickup d
    then if has_destination d.draft_delivery d then some d else none
    else none

-- `ShipmentDraft.model_validate` of the payload, which needs both methods.
unfoldable pub model_validate : Payload → Option ShipmentDraft
model_validate p = elim p.given.pickup_method [
  | none ↦ none
  | some pickup ↦ elim p.given.delivery_method [
    | none ↦ none
    | some delivery ↦
        validate_service_combination (shipment_draft pickup delivery p.given p.given_quote)
  ]
]

unfoldable pub validate : ℕ → CurrentUser → Action ShipmentDraft
validate conversation_id actor = do
  draft ← get_or_create conversation_id actor
  let given = with_methods draft.payload.given
  let payload : Payload = record (draft.payload) { given = given }
  raise_if (asks_dropoff given.pickup_method) station_dropoff_disabled
  raise_if (asks_collection given.delivery_method) station_pickup_disabled
  raise_if (is_missing (missing_fields given)) shipment_draft_incomplete
  save_draft (record draft { payload = payload })
  check_address given.sender_address actor
  check_address given.receiver_address actor
  or_raise (model_validate payload) shipment_draft_invalid

-- `QuoteRequest`: a code has six characters, a measure is above zero.
abbrev pub request_fits : PricingInput → Bool
request_fits r =
    (length r.origin_district_code == 6)
    && (length r.destination_district_code == 6)
    && ltb 0 r.actual_weight_grams
    && ltb 0 r.length_cm
    && ltb 0 r.width_cm
    && ltb 0 r.height_cm

-- `QuoteRequest.model_validate` of the payload: an absent entry raises `KeyError`, and one out of
-- its bounds a `ValueError`.
unfoldable pub quote_request : DraftPatch → Action PricingInput
quote_request p = do
  origin ← or_raise p.origin_district lookup_error
  destination ← or_raise p.destination_district lookup_error
  pickup ← or_raise p.pickup_method lookup_error
  delivery ← or_raise p.delivery_method lookup_error
  weight ← or_raise p.estimated_weight lookup_error
  length ← or_raise p.estimated_length lookup_error
  width ← or_raise p.estimated_width lookup_error
  height ← or_raise p.estimated_height lookup_error
  let request : PricingInput = record {
    origin_district_code = origin;
    destination_district_code = destination;
    pickup_method = pickup;
    delivery_method = delivery;
    actual_weight_grams = weight;
    length_cm = length;
    width_cm = width;
    height_cm = height;
  }
  raise_if (not (request_fits request)) value_error
  pure request

-- The quote's id and the version of its rule, as the response has them.
unfoldable pub response_quote : Object → Option (ℕ × String)
response_quote ((_, str (ident quote_id)) ∷ (_, str (lit version)) ∷ _) = some (quote_id, version)
response_quote _ = none

abbrev pub quote_key : AgentShipmentDraft → Key
quote_key draft =
    lit "agent-draft:"
    ⊹ ident draft.draft_row
    ⊹ lit ":revision:"
    ⊹ ident draft.revision
    ⊹ lit ":quote"

unfoldable pub validate_and_quote :
    (PricingInput → ℕ) → ℕ → CurrentUser → Action (ShipmentDraft × AgentShipmentDraft)
validate_and_quote request_hash conversation_id actor = do
  command ← validate conversation_id actor
  draft ← get_or_create conversation_id actor
  request ← quote_request draft.payload.given
  response ← Service.quote request actor (quote_key draft) (request_hash request)
  (quote_id, version) ← or_raise (response_quote response.body) value_error
  now ← gets (λ s. s.now)
  let bound : AgentShipmentDraft = record draft {
    payload = record (draft.payload) { given_quote = some quote_id };
    bound_quote = some quote_id;
    bound_version = some version;
    draft_status = ready_for_confirmation;
    draft_updated_at = now;
  }
  save_draft bound
  pure (command, bound)
