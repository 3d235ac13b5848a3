-- ===== src/Tests/Grants.antt =====
-- A draft for confirmation with two grants, at examples.
use yitu.Base.{ℕ, List, arith, ◌≡◌, ◌≤◌, refl, false, none, some, [], ◌∷◌}
use yitu.Base.Table.{by_key, put_row}
use yitu.Agent.Drafts.{
  own_draft, update, nothing_given, missing_fields, patch_fits, missing_sender, missing_receiver,
  new_draft,
}
use yitu.Agent.Grants.{consume, redeem, ordered, used}
use yitu.Agent.Grants.Once.{IsConfirmed, consume-IsConfirmed, consume-exhausts}
use yitu.Agent.Grants.Revoked.{DraftRequest, requests, update-revokes}
use yitu.Agent.Validation.{validate_service_combination, quote_request}
use yitu.Agent.Validation.Complete.{missing_fields_complete}
use yitu.Pricing.Policy.{PricingInput}
use yitu.Platform.Errors.{ok, is_ok}
use yitu.Platform.Json.{Key, key_eq, lit}
use yitu.Shipments.Enums.{home_delivery, door_pickup, pending_payment}
use yitu.Store.Drafts.{
  ShipmentDraft, DraftPatch, AgentShipmentDraft, AgentActionGrant, ready_for_confirmation,
}
use yitu.Store.Queries.{find_draft, put_draft, find_grant, put_grant}
use yitu.Store.Rows.{CurrentUser}
use yitu.Store.Session.{Session}
use yitu.Tests.Data.{alice, bob, parcel, store}

abbrev command : ShipmentDraft
command = record {
  sender_id = some 90;
  receiver_id = some 91;
  origin_id = none;
  destination_id = none;
  draft_pickup = door_pickup;
  draft_delivery = home_delivery;
  draft_quote = some 20;
  category = some (lit "books");
  contents = some (lit "two books");
  weight_grams = some 900;
  length_in_cm = some 10;
  width_in_cm = some 10;
  height_in_cm = some 10;
  instructions = none;
}

-- A stand-in for the hash: the weight of the parcel.
abbrev weight_hash : ShipmentDraft → ℕ
weight_hash c = elim c.weight_grams [ none ↦ 0 | some n ↦ n ]

abbrev weight_of : PricingInput → ℕ
weight_of r = r.actual_weight_grams

abbrev draft : AgentShipmentDraft
draft = record (new_draft 80 81 1 0) {
  revision = 3;
  draft_status = ready_for_confirmation;
  bound_quote = some 20;
  bound_version = some "v1";
}

abbrev grant : ℕ → AgentActionGrant
grant i = record {
  grant_row = i;
  grant_conversation = 81;
  grant_owner = 1;
  grant_action = "CREATE_SHIPMENT";
  grant_draft = 80;
  grant_revision = 3;
  grant_quote = 20;
  grant_version = "v1";
  command_snapshot = command;
  command_hash = 900;
  nonce = i;
  grant_expires_at = 2000;
  grant_consumed_at = none;
  grant_created_at = 900;
}

abbrev granted : Session
granted = record (store (parcel pending_payment home_delivery) [] [] []) {
  drafts = draft ∷ [];
  grants = grant 82 ∷ grant 83 ∷ [];
}

abbrev after_first : Session
after_first = (consume weight_hash 82 alice (lit "r") granted).1

confirmation_example :
    (g : AgentActionGrant) × (d : AgentShipmentDraft) × (find_grant 82 granted.grants ≡ some g)
    × (find_draft g.grant_draft granted.drafts ≡ some d)
    × IsConfirmed g d alice granted.now
    × (command ≡ g.command_snapshot)
    × (after_first ≡ record granted {
      drafts = put_draft (ordered d) granted.drafts;
      grants = put_grant (used g granted.now) granted.grants;
    })
unfolding consume redeem find_draft find_grant by_key validate_service_combination
confirmation_example =
    consume-IsConfirmed weight_hash 82 alice (lit "r") granted {c = command} {t = after_first} refl

exhausted_example : is_ok (consume weight_hash 83 bob (lit "again") after_first).0 ≡ false
unfolding consume redeem find_draft find_grant by_key validate_service_combination put_draft
    put_grant put_row
exhausted_example =
    consume-exhausts weight_hash 82 alice (lit "r") granted {c = command} {t = after_first}
      {g = grant 82} refl refl 83 bob (lit "again") {h = grant 83} refl refl

revoked_example :
    ((v : AgentShipmentDraft) × ((update 81 alice nothing_given granted).0 ≡ ok v)
      × (v.draft_row ≡ 80)
      × (v.revision ≡ 4)
      × (v.bound_quote ≡ none)
      × (v.bound_version ≡ none))
    × ((later : List DraftRequest) (j : ℕ) (other : CurrentUser) (request_id : Key)
          (h : AgentActionGrant)
        → let t = requests weight_hash weight_of later (update 81 alice nothing_given granted).1 in
          find_grant j t.grants ≡ some h
          → h.grant_draft ≡ 80
          → h.grant_revision ≤ 3
          → is_ok (consume weight_hash j other request_id t).0 ≡ false)
unfolding own_draft
revoked_example =
    update-revokes weight_hash weight_of 81 alice nothing_given granted {d = draft} refl
      (omega arith)

abbrev whole : DraftPatch
whole = record nothing_given {
  sender_address = some 90;
  receiver_address = some 91;
  pickup_method = some door_pickup;
  delivery_method = some home_delivery;
  origin_district = some (49 ∷ 49 ∷ 48 ∷ 49 ∷ 48 ∷ 49 ∷ []);
  destination_district = some (51 ∷ 49 ∷ 48 ∷ 49 ∷ 48 ∷ 49 ∷ []);
  estimated_weight = some 900;
  estimated_length = some 10;
  estimated_width = some 20;
  estimated_height = some 30;
  package_category = some (lit "books");
  package_description = some (lit "two books");
}

whole_example :
    (r : PricingInput) × (quote_request whole granted ≡ (ok r, granted))
    × (whole.origin_district ≡ some r.origin_district_code)
    × (whole.destination_district ≡ some r.destination_district_code)
    × (whole.pickup_method ≡ some r.pickup_method)
    × (whole.delivery_method ≡ some r.delivery_method)
    × (whole.estimated_weight ≡ some r.actual_weight_grams)
    × (whole.estimated_length ≡ some r.length_cm)
    × (whole.estimated_width ≡ some r.width_cm)
    × (whole.estimated_height ≡ some r.height_cm)
unfolding missing_fields missing_sender missing_receiver patch_fits key_eq
whole_example = missing_fields_complete whole granted refl refl
