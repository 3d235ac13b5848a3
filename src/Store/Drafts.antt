-- ===== src/Store/Drafts.antt =====
-- The rows of the assistant's drafts and grants (backend/src/yitu/agent/domain/models.py), what a
-- draft collects (`DraftPatch` of backend/src/yitu/agent/domain/drafts.py), and the command that is
-- made of it (`ShipmentDraft` of backend/src/yitu/shipments/schemas.py).
use Prim.Native.String.{String}
use yitu.Base.{ℕ, Option, List}
use yitu.Platform.Json.{Key}
use yitu.Shipments.Enums.{PickupMethod, DeliveryMethod}

-- `ShipmentDraft`
pub record ShipmentDraft : Type 0 where
  pub sender_id : Option ℕ
  pub receiver_id : Option ℕ
  pub origin_id : Option ℕ
  pub destination_id : Option ℕ
  pub draft_pickup : PickupMethod
  pub draft_delivery : DeliveryMethod
  pub draft_quote : Option ℕ
  pub category : Option Key
  pub contents : Option Key
  pub weight_grams : Option ℕ
  pub length_in_cm : Option ℕ
  pub width_in_cm : Option ℕ
  pub height_in_cm : Option ℕ
  pub instructions : Option Key

-- `DraftPatch`; also the entries of a draft's payload, where `none` is an absent key.
pub record DraftPatch : Type 0 where
  pub sender_address : Option ℕ
  pub receiver_address : Option ℕ
  pub origin_station : Option ℕ
  pub destination_station : Option ℕ
  pub pickup_method : Option PickupMethod
  pub delivery_method : Option DeliveryMethod
  pub origin_district : Option (List ℕ)
  pub destination_district : Option (List ℕ)
  pub actual_weight : Option ℕ
  pub length_cm : Option ℕ
  pub width_cm : Option ℕ
  pub height_cm : Option ℕ
  pub estimated_weight : Option ℕ
  pub estimated_length : Option ℕ
  pub estimated_width : Option ℕ
  pub estimated_height : Option ℕ
  pub package_category : Option Key
  pub package_description : Option Key
  pub special_instructions : Option Key

-- The payload of a draft: what was given, and the `quote_id` that the quote adds.
pub record Payload : Type 0 where
  pub given : DraftPatch
  pub given_quote : Option ℕ

pub data DraftStatus : Type 0 where
  incomplete ready_for_quote ready_for_confirmation shipment_created : DraftStatus

pub record AgentShipmentDraft : Type 0 where
  pub draft_row : ℕ
  pub draft_conversation : ℕ
  pub draft_owner : ℕ
  pub payload : Payload
  pub revision : ℕ
  pub draft_status : DraftStatus
  pub missing : List String
  pub bound_quote : Option ℕ
  pub bound_version : Option String
  pub draft_updated_at : ℕ

pub record AgentActionGrant : Type 0 where
  pub grant_row : ℕ
  pub grant_conversation : ℕ
  pub grant_owner : ℕ
  pub grant_action : String
  pub grant_draft : ℕ
  pub grant_revision : ℕ
  pub grant_quote : ℕ
  pub grant_version : String
  pub command_snapshot : ShipmentDraft
  pub command_hash : ℕ
  pub nonce : ℕ
  pub grant_expires_at : ℕ
  pub grant_consumed_at : Option ℕ
  pub grant_created_at : ℕ
