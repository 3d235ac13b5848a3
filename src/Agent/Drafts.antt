-- ===== src/Agent/Drafts.antt =====
-- backend/src/yitu/agent/domain/drafts.py, `DraftService`: the shipment that a conversation collects;
-- its validation and its quote are in Agent/Validation.antt. A text of the customer is a `lit`, so
-- the empty text is `lit ""`. `describe`, which makes texts for the customer, and the bounds of
-- `DraftPatch` on the lengths of texts are left out.
use Prim.Native.String.{String}
use yitu.Base.{
  ℕ, ◌+◌, Bool, true, false, ◌&&◌, not, Option, none, some, List, [], ◌∷◌, ◌++◌, find_first,
  is_some, ltb, length, ◌==◌, if◌then◌else◌,
}
use yitu.Platform.Json.{Key, key_eq, lit}
use yitu.Shipments.Enums.{
  PickupMethod, DeliveryMethod, door_pickup, station_dropoff, home_delivery, station_pickup,
}
use yitu.Store.Drafts.{DraftPatch, AgentShipmentDraft, incomplete, ready_for_quote}
use yitu.Store.Queries.{put_draft}
use yitu.Store.Rows.{CurrentUser}
use yitu.Store.Session.{Action, new_id, modify, gets, pure, ◌>>=◌, ◌>>◌}

abbrev pub is_own : ℕ → CurrentUser → AgentShipmentDraft → Bool
is_own conversation_id actor d =
    (d.draft_conversation == conversation_id) && (d.draft_owner == actor.user_id)

-- The draft of the conversation, when it is the actor's.
unfoldable pub own_draft : ℕ → CurrentUser → List AgentShipmentDraft → Option AgentShipmentDraft
own_draft conversation_id actor = find_first (is_own conversation_id actor)

-- The bounds of the fields of `DraftPatch`: a code has six characters, a measure is above zero.
abbrev pub code_fits : Option (List ℕ) → Bool
code_fits none = true
code_fits (some c) = length c == 6

abbrev pub measure_fits : Option ℕ → Bool
measure_fits none = true
measure_fits (some n) = ltb 0 n

abbrev pub codes_fit : DraftPatch → Bool
codes_fit p = code_fits p.origin_district && code_fits p.destination_district

abbrev pub measures_fit : DraftPatch → Bool
measures_fit p =
    measure_fits p.actual_weight
    && measure_fits p.length_cm
    && measure_fits p.width_cm
    && measure_fits p.height_cm
    && measure_fits p.estimated_weight
    && measure_fits p.estimated_length
    && measure_fits p.estimated_width
    && measure_fits p.estimated_height

unfoldable pub patch_fits : DraftPatch → Bool
patch_fits p = codes_fit p && measures_fit p

abbrev pub nothing_given : DraftPatch
nothing_given = record {
  sender_address = none;
  receiver_address = none;
  origin_station = none;
  destination_station = none;
  pickup_method = none;
  delivery_method = none;
  origin_district = none;
  destination_district = none;
  actual_weight = none;
  length_cm = none;
  width_cm = none;
  height_cm = none;
  estimated_weight = none;
  estimated_length = none;
  estimated_width = none;
  estimated_height = none;
  package_category = none;
  package_description = none;
  special_instructions = none;
}

abbrev pub new_draft : ℕ → ℕ → ℕ → ℕ → AgentShipmentDraft
new_draft draft_id conversation_id owner now = record {
  draft_row = draft_id;
  draft_conversation = conversation_id;
  draft_owner = owner;
  payload = record { given = nothing_given; given_quote = none };
  revision = 0;
  draft_status = incomplete;
  missing = [];
  bound_quote = none;
  bound_version = none;
  draft_updated_at = now;
}

unfoldable pub get_or_create : ℕ → CurrentUser → Action AgentShipmentDraft
get_or_create conversation_id actor = do
  found ← gets (λ s. own_draft conversation_id actor s.drafts)
  elim found [
    | some d ↦ pure d
    | none ↦ do
      draft_id ← new_id
      now ← gets (λ s. s.now)
      let d = new_draft draft_id conversation_id actor.user_id now
      modify (λ s. record s { drafts = s.drafts ++ d ∷ [] })
      pure d
  ]

-- A new entry, or the one that is there: `dict.update` and `dict.setdefault`.
abbrev pub or_old : {A : Type 0} → Option A → Option A → Option A
or_old none old = old
or_old (some new) old = some new

-- `payload.update(patch.model_dump(exclude_none=True))`
unfoldable pub merged : DraftPatch → DraftPatch → DraftPatch
merged patch old = record {
  sender_address = or_old patch.sender_address old.sender_address;
  receiver_address = or_old patch.receiver_address old.receiver_address;
  origin_station = or_old patch.origin_station old.origin_station;
  destination_station = or_old patch.destination_station old.destination_station;
  pickup_method = or_old patch.pickup_method old.pickup_method;
  delivery_method = or_old patch.delivery_method old.delivery_method;
  origin_district = or_old patch.origin_district old.origin_district;
  destination_district = or_old patch.destination_district old.destination_district;
  actual_weight = or_old patch.actual_weight old.actual_weight;
  length_cm = or_old patch.length_cm old.length_cm;
  width_cm = or_old patch.width_cm old.width_cm;
  height_cm = or_old patch.height_cm old.height_cm;
  estimated_weight = or_old patch.estimated_weight old.estimated_weight;
  estimated_length = or_old patch.estimated_length old.estimated_length;
  estimated_width = or_old patch.estimated_width old.estimated_width;
  estimated_height = or_old patch.estimated_height old.estimated_height;
  package_category = or_old patch.package_category old.package_category;
  package_description = or_old patch.package_description old.package_description;
  special_instructions = or_old patch.special_instructions old.special_instructions;
}

-- The two `setdefault`
abbrev pub with_methods : DraftPatch → DraftPatch
with_methods p = record p {
  pickup_method = or_old p.pickup_method (some door_pickup);
  delivery_method = or_old p.delivery_method (some home_delivery);
}

abbrev pub missing_if : Bool → String → List String
missing_if true field = field ∷ []
missing_if false field = []

-- `not payload.get(field)` of a number, a code and a text.
abbrev pub no_number : Option ℕ → Bool
no_number none = true
no_number (some n) = n == 0

abbrev pub no_code : Option (List ℕ) → Bool
no_code none = true
no_code (some []) = true
no_code (some (c ∷ cs)) = false

abbrev pub no_text : Option Key → Bool
no_text none = true
no_text (some t) = key_eq t (lit "")

unfoldable pub missing_sender : Option PickupMethod → DraftPatch → List String
missing_sender none p = "pickup_method" ∷ []
missing_sender (some door_pickup) p =
    missing_if (not (is_some p.sender_address)) "sender_address_id"
missing_sender (some station_dropoff) p =
    missing_if (not (is_some p.origin_station)) "origin_station_id"

unfoldable pub missing_receiver : Option DeliveryMethod → DraftPatch → List String
missing_receiver none p = "delivery_method" ∷ []
missing_receiver (some home_delivery) p =
    missing_if (not (is_some p.receiver_address)) "receiver_address_id"
missing_receiver (some station_pickup) p =
    missing_if (not (is_some p.destination_station)) "destination_station_id"

unfoldable pub missing_fields : DraftPatch → List String
missing_fields p =
    missing_sender p.pickup_method p
    ++ missing_receiver p.delivery_method p
    ++ missing_if (no_code p.origin_district) "origin_district_code"
    ++ missing_if (no_code p.destination_district) "destination_district_code"
    ++ missing_if (no_number p.estimated_weight) "estimated_weight_grams"
    ++ missing_if (no_number p.estimated_length) "estimated_length_cm"
    ++ missing_if (no_number p.estimated_width) "estimated_width_cm"
    ++ missing_if (no_number p.estimated_height) "estimated_height_cm"
    ++ missing_if (no_text p.package_category) "package_category"
    ++ missing_if (no_text p.package_description) "package_description"

abbrev pub is_missing : List String → Bool
is_missing [] = false
is_missing (f ∷ fs) = true

abbrev pub save_draft : AgentShipmentDraft → Action (Unit {0})
save_draft d = modify (λ s. record s { drafts = put_draft d s.drafts })

-- What `update` writes to the row.
abbrev pub updated : DraftPatch → AgentShipmentDraft → ℕ → AgentShipmentDraft
updated patch draft now =
    let given = with_methods (merged patch draft.payload.given) in
    let lacking = missing_fields given in
    record draft {
      payload = record (draft.payload) { given = given };
      missing = lacking;
      draft_status = if is_missing lacking then incomplete else ready_for_quote;
      revision = draft.revision + 1;
      bound_quote = none;
      bound_version = none;
      draft_updated_at = now;
    }

unfoldable pub update : ℕ → CurrentUser → DraftPatch → Action AgentShipmentDraft
update conversation_id actor patch = do
  draft ← get_or_create conversation_id actor
  now ← gets (λ s. s.now)
  save_draft (updated patch draft now)
  pure (updated patch draft now)
