-- ===== src/Store/Cases.antt =====
-- The rows of backend/src/yitu/exceptions/models.py, and the pauses of
-- backend/src/yitu/sla/models.py, which exception cases begin and end.
use Prim.Native.String.{String}
use yitu.Base.{ℕ, Bool, Option}
use yitu.Exceptions.StateMachine.{
  ExceptionType, ExceptionSeverity, ExceptionStatus, ExceptionSourceType, ResolutionCode,
}
use yitu.Platform.Json.{Key, Object}
use yitu.Shipments.Enums.{ShipmentStatus}

pub record ExceptionCase : Type 0 where
  pub case_id : ℕ
  pub case_shipment : ℕ
  pub case_type : ExceptionType
  pub case_severity : ExceptionSeverity
  pub case_status : ExceptionStatus
  pub case_source : ExceptionSourceType
  pub case_source_id : Option ℕ
  pub description : Key
  pub evidence_summary : Object
  pub case_blocks : Bool
  pub frozen_shipment_status : Option ShipmentStatus
  pub reported_by : Option ℕ
  pub assigned_to : Option ℕ
  pub responsible_station : Option ℕ
  pub resolution_code : Option ResolutionCode
  pub resolution_reason : Option Key
  pub opened_at : ℕ
  pub assigned_at : Option ℕ
  pub resolved_at : Option ℕ
  pub case_closed_at : Option ℕ
  pub case_key : Key
  pub case_request : Key

pub record TaskReassignment : Type 0 where
  pub reassignment_id : ℕ
  pub reassigned_case : ℕ
  pub old_task : ℕ
  pub new_task : ℕ
  pub reassign_reason : Key
  pub reassign_actor : ℕ
  pub reassign_key : Key
  pub reassigned_at : ℕ

pub record SlaPause : Type 0 where
  pub pause_id : ℕ
  pub pause_instance : ℕ
  pub pause_reason : Key
  pub reason_code : Option Key
  pub pause_source : Option String
  pub pause_source_id : Option ℕ
  pub pause_actor : Option ℕ
  pub pause_key : Option Key
  pub resume_key : Option Key
  pub pause_started : ℕ
  pub pause_ended : Option ℕ
  pub duration_seconds : ℕ
