-- ===== src/Store/Rows.antt =====
-- The rows of the tables, as the SQLAlchemy models of backend/src/yitu declare them. A UUID and a
-- moment are numbers; a nullable column is an option. Columns that no modelled operation reads or
-- writes after creation are kept.
use Prim.Native.String.{String}
use yitu.Base.{ℕ, Bool, Option, List}
use yitu.Platform.Json.{Key, Object}
use yitu.Shipments.Enums.{ShipmentStatus, PickupMethod, DeliveryMethod, Role}

-- backend/src/yitu/identity/service.py
pub record CurrentUser : Type 0 where
  pub user_id : ℕ
  pub role : Role
  pub user_station : Option ℕ

-- backend/src/yitu/shipments/models.py
pub record Shipment : Type 0 where
  pub id : ℕ
  pub shipment_no : Key
  pub owner_id : ℕ
  pub sender_address_id : Option ℕ
  pub receiver_address_id : Option ℕ
  pub origin_station_id : Option ℕ
  pub destination_station_id : Option ℕ
  pub pickup_method : PickupMethod
  pub delivery_method : DeliveryMethod
  pub status : ShipmentStatus
  pub quote_id : Option ℕ
  pub package_id : Option ℕ
  pub created_at : ℕ

-- backend/src/yitu/shipments/hold_models.py
pub record ShipmentHold : Type 0 where
  pub hold_id : ℕ
  pub hold_shipment : ℕ
  pub source_type : String
  pub source_id : ℕ
  pub frozen_status : ShipmentStatus
  pub reason : Key
  pub active : Bool
  pub placed_by : ℕ
  pub placed_at : ℕ
  pub released_by : Option ℕ
  pub released_at : Option ℕ
  pub place_idempotency_key : Key
  pub release_idempotency_key : Option Key

-- backend/src/yitu/dispatch/models.py
pub data CourierTaskType : Type 0 where
  pickup delivery : CourierTaskType

pub data CourierTaskStatus : Type 0 where
  available accepted completed task_cancelled : CourierTaskStatus

pub record CourierTask : Type 0 where
  pub task_id : ℕ
  pub task_shipment : ℕ
  pub station_id : ℕ
  pub task_type : CourierTaskType
  pub task_status : CourierTaskStatus
  pub assignee_id : Option ℕ
  pub closed_reason : Option Key
  pub closed_at : Option ℕ
  pub replaced_by_task_id : Option ℕ

-- backend/src/yitu/shipments/transport_models.py
pub data TransportLegStatus : Type 0 where
  in_transit arrived : TransportLegStatus

pub record TransportLeg : Type 0 where
  pub leg_id : ℕ
  pub leg_shipment : ℕ
  pub leg_origin : ℕ
  pub leg_destination : Option ℕ
  pub leg_status : TransportLegStatus
  pub leg_started_at : Option ℕ
  pub arrived_at : Option ℕ

-- backend/src/yitu/shipments/credential_models.py
pub record PickupCredential : Type 0 where
  pub credential_id : ℕ
  pub credential_shipment : ℕ
  pub credential_station : Option ℕ
  pub code_hash : ℕ
  pub expires_at : ℕ
  pub failed_attempts : ℕ
  pub locked_at : Option ℕ
  pub consumed_at : Option ℕ
  pub issued_at : ℕ

pub record ProofOfDelivery : Type 0 where
  pub proof_id : ℕ
  pub proof_shipment : ℕ
  pub proof_method : DeliveryMethod
  pub signer_name : List ℕ
  pub verification_method : String
  pub actor_id : ℕ
  pub proof_station : Option ℕ
  pub proof_key : Key
  pub signed_at : ℕ

-- backend/src/yitu/payments/models.py; the type and the status are texts in the source.
-- The column `request_hash`, which no code reads, is left out.
pub data TransactionType : Type 0 where
  payment supplement refund : TransactionType

pub record PaymentTransaction : Type 0 where
  pub payment_id : ℕ
  pub payer_id : ℕ
  pub payment_quote : Option ℕ
  pub payment_shipment : Option ℕ
  pub related_transaction_id : Option ℕ
  pub transaction_type : TransactionType
  pub succeeded : Bool
  pub amount_cents : ℕ
  pub payment_key : Key
  pub paid_at : ℕ

-- backend/src/yitu/returns/enums.py and models.py
pub data RecoveryAction : Type 0 where
  cancel interception redelivery convert_to_pickup return_action : RecoveryAction

pub data RecoveryStatus : Type 0 where
  requested approved in_progress recovery_completed : RecoveryStatus

pub record RecoveryCase : Type 0 where
  pub recovery_id : ℕ
  pub recovery_shipment : ℕ
  pub recovery_action : RecoveryAction
  pub recovery_status : RecoveryStatus
  pub recovery_reason : Key
  pub recovery_actor : ℕ
  pub recovery_key : Key
  pub recovery_request : Key
  pub recovery_created_at : ℕ
  pub recovery_completed_at : Option ℕ

-- backend/src/yitu/sla/models.py; the status is a text in the source.
pub record SlaRule : Type 0 where
  pub rule_id : ℕ
  pub rule_version : String
  pub route : String
  pub service_type : String
  pub rule_stage : String
  pub target_work_hours : Option ℕ
  pub target_natural_hours : Option ℕ
  pub effective_from : ℕ
  pub effective_to : Option ℕ
  pub rule_active : Bool

pub data SlaStatus : Type 0 where
  running paused sla_completed sla_cancelled : SlaStatus

pub record SlaInstance : Type 0 where
  pub sla_id : ℕ
  pub sla_shipment : ℕ
  pub sla_owner : ℕ
  pub sla_rule : ℕ
  pub sla_rule_version : String
  pub sla_stage : String
  pub sla_status : SlaStatus
  pub sla_started_at : Option ℕ
  pub promised_delivery_at : Option ℕ
  pub eta_at : Option ℕ
  pub sla_completed_at : Option ℕ
  pub paused_seconds : ℕ
  pub breached : Bool
  pub last_scan_key : Option Key

-- backend/src/yitu/tracking/models.py
pub record TrackingEvent : Type 0 where
  pub event_id : ℕ
  pub event_shipment : ℕ
  pub sequence_no : ℕ
  pub event_type : String
  pub message : Key
  pub visible_to_customer : Bool
  pub event_key : Key
  pub occurred_at : ℕ

-- `outbox_events` of backend/src/yitu/platform/models.py
pub data OutboxStatus : Type 0 where
  pending published outbox_completed dead : OutboxStatus

pub record OutboxEvent : Type 0 where
  pub outbox_id : ℕ
  pub outbox_type : String
  pub business_id : Key
  pub payload : Object
  pub outbox_key : Key
  pub outbox_status : OutboxStatus
  pub attempts : ℕ
  pub next_attempt_at : ℕ
  pub outbox_created_at : ℕ
  pub processed_at : Option ℕ
  pub last_error : Option Key

-- backend/src/yitu/platform/audit.py
pub record AuditEntry : Type 0 where
  pub entry_id : ℕ
  pub entry_actor : Key
  pub entry_action : Key
  pub entry_resource : Key
  pub before_summary : Option Object
  pub after_summary : Option Object
  pub entry_reason : Option Key
  pub entry_request : Key
  pub entry_created_at : ℕ

-- `idempotency_records` of backend/src/yitu/platform/models.py; a snapshot of a response.
pub record IdempotencyResponse : Type 0 where
  pub status_code : ℕ
  pub body : Object

pub record IdempotencyRecord : Type 0 where
  pub record_scope : Key
  pub record_key : Key
  pub record_hash : ℕ
  pub record_completed : Bool
  pub record_response : Option IdempotencyResponse

-- `dead_letters`, the table of the migrations.
pub record DeadLetter : Type 0 where
  pub letter_id : ℕ
  pub letter_event : ℕ
  pub letter_type : String
  pub letter_business : Key
  pub letter_payload : Object
  pub letter_key : Key
  pub letter_attempts : ℕ
  pub letter_error : Key
  pub failed_at : ℕ
