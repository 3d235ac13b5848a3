-- ===== src/Sla/Breaches.antt =====
-- backend/src/yitu/sla/service.py, `scan_breaches`: an overdue stage is marked once, and opens an
-- exception case.
pub mod Scan
use Prim.Native.String.{String}
use package.text.Mathlib.Text.{◌==◌ as str_eq}
use yitu.Base.{
  ℕ, Bool, true, false, ◌&&◌, ◌||◌, not, Option, none, some, List, [], ◌∷◌, ◌++◌, find_first,
  select, ltb, ◌==◌, opt_eq,
}
use yitu.Exceptions.StateMachine.{
  ExceptionSourceType, manual, sla_scan, station_delay, high, opened,
}
use yitu.Platform.Audit.{audit_record}
use yitu.Platform.Errors.{value_error}
use yitu.Platform.Json.{Key, key_eq, lit, ident, ◌⊹◌, Object, str, fields}
use yitu.Platform.Outbox.{append}
use yitu.Sla.Pauses.{save_instance}
use yitu.Sla.Service.{status_is}
use yitu.Store.Cases.{ExceptionCase}
use yitu.Store.Queries.{find_shipment}
use yitu.Store.Rows.{Shipment, SlaInstance, running}
use yitu.Store.Session.{Action, new_id, modify, gets, or_raise, pure, ◌>>=◌, ◌>>◌}

abbrev pub is_scan : ExceptionSourceType → Bool
is_scan manual = false
is_scan sla_scan = true

unfoldable pub find_scan_case : ℕ → List ExceptionCase → Option ExceptionCase
find_scan_case instance_id =
    find_first (λ c. is_scan c.case_source && opt_eq c.case_source_id (some instance_id))

abbrev pub add_case : ExceptionCase → Action (Unit {0})
add_case row = modify (λ s. record s { cases = s.cases ++ row ∷ [] })

-- `_responsible_station_id`
abbrev pub responsible_station_id : Shipment → String → Option ℕ
responsible_station_id shipment stage =
    elim (str_eq stage "PICKUP" || (str_eq stage "ORIGIN" || str_eq stage "ORIGIN_PROCESSING")) [
      | true ↦ shipment.origin_station_id
      | false ↦
          elim (str_eq stage "DESTINATION"
            || (str_eq stage "DELIVERY" || str_eq stage "PICKUP_AT_STATION")) [
              | true ↦ shipment.destination_station_id
              | false ↦ none
            ]
    ]

abbrev pub breach_evidence : SlaInstance → Key → Object
breach_evidence row scan_key =
    ("sla_instance_id", str (ident row.sla_id))
    ∷ ("stage", str (lit row.sla_stage))
    ∷ ("scan_key", str scan_key)
    ∷ []

abbrev pub breach_case : SlaInstance → Shipment → Key → ℕ → ℕ → ExceptionCase
breach_case row shipment scan_key case_id now = record {
  case_id = case_id;
  case_shipment = row.sla_shipment;
  case_type = station_delay;
  case_severity = high;
  case_status = opened;
  case_source = sla_scan;
  case_source_id = some row.sla_id;
  description = lit "SLA 阶段 " ⊹ lit row.sla_stage ⊹ lit " 已超时";
  evidence_summary = breach_evidence row scan_key;
  case_blocks = false;
  frozen_shipment_status = none;
  reported_by = none;
  assigned_to = none;
  responsible_station = responsible_station_id shipment row.sla_stage;
  resolution_code = none;
  resolution_reason = none;
  opened_at = now;
  assigned_at = none;
  resolved_at = none;
  case_closed_at = none;
  case_key = lit "exception:sla:" ⊹ ident row.sla_id;
  case_request = scan_key;
}

abbrev pub breach_summary : SlaInstance → Object
breach_summary row =
    ("status", str (lit "OPEN"))
    ∷ ("case_type", str (lit "STATION_DELAY"))
    ∷ ("sla_instance_id", str (ident row.sla_id))
    ∷ []

abbrev pub breach_notice : Shipment → SlaInstance → Object
breach_notice shipment row =
    ("recipient_id", str (ident shipment.owner_id))
    ∷ ("template_code", str (lit "SLA_BREACHED"))
    ∷ (
      "template_data",
      fields (("shipment_no", shipment.shipment_no) ∷ ("stage", lit row.sla_stage) ∷ []),
    )
    ∷ []

-- The rest of `_open_breach_case`, when the stage has no case yet.
unfoldable pub report_breach : SlaInstance → Key → Action (Unit {0})
report_breach row scan_key = do
  shipment ← or_raise (← gets (λ s. find_shipment row.sla_shipment s.shipments)) value_error
  case_id ← new_id
  now ← gets (λ s. s.now)
  add_case (breach_case row shipment scan_key case_id now)
  audit_record (lit "system:sla-scanner") (lit "exception.open_from_sla")
      (lit "exception:" ⊹ ident case_id) none (some (breach_summary row)) (some (lit "SLA 超时自动开单"))
      scan_key
  append "notification.requested" (lit "exception:" ⊹ ident case_id ⊹ lit ":sla-breach")
      (breach_notice shipment row)
      (lit "notification:exception:" ⊹ ident case_id ⊹ lit ":sla-breach")
  pure tt

-- `_open_breach_case`
unfoldable pub open_breach_case : SlaInstance → Key → Action (Unit {0})
open_breach_case row scan_key = do
  existing ← gets (λ s. find_scan_case row.sla_id s.cases)
  elim existing [ some c ↦ pure tt | none ↦ report_breach row scan_key ]

abbrev pub is_overdue : Option ℕ → ℕ → Bool
is_overdue none now = false
is_overdue (some promised) now = ltb promised now

-- The rows that a scan looks at.
abbrev pub is_due : ℕ → SlaInstance → Bool
is_due now row =
    status_is row.sla_status running
    && (not row.breached && is_overdue row.promised_delivery_at now)

unfoldable pub due_instances : ℕ → List SlaInstance → List SlaInstance
due_instances now = select (is_due now)

abbrev pub scanned_with : SlaInstance → Key → Bool
scanned_with row scan_key = elim row.last_scan_key [ none ↦ false | some k ↦ key_eq k scan_key ]

abbrev pub marked : SlaInstance → Key → SlaInstance
marked row scan_key = record row { breached = true; last_scan_key = some scan_key }

unfoldable pub mark_breach : SlaInstance → Key → Action (Unit {0})
mark_breach row scan_key = do
  save_instance (marked row scan_key)
  open_breach_case (marked row scan_key) scan_key

unfoldable pub scan_loop : Key → List SlaInstance → Action (List SlaInstance)
scan_loop scan_key [] = pure []
scan_loop scan_key (row ∷ rows) = elim (scanned_with row scan_key) [
  | true ↦ scan_loop scan_key rows
  | false ↦ do
    mark_breach row scan_key
    changed ← scan_loop scan_key rows
    pure (marked row scan_key ∷ changed)
]

unfoldable pub scan_breaches : Key → Action (List SlaInstance)
scan_breaches scan_key = do
  rows ← gets (λ s. due_instances s.now s.sla_instances)
  scan_loop scan_key rows
