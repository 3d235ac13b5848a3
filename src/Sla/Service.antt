-- ===== src/Sla/Service.antt =====
-- backend/src/yitu/sla/service.py and policy.py: the stages of a shipment under their rules.
-- A `ValueError` is `value_error`, whatever its text.
pub mod Frame
use Prim.Native.String.{String}
use package.text.Mathlib.Text.{◌==◌ as str_eq}
use yitu.Base.{
  ℕ, ◌+◌, ◌*◌, Bool, true, false, ◌&&◌, ◌||◌, not, Option, none, some, List, [], ◌∷◌, ◌++◌, length,
  find_first, select, update_where, ltb, ◌==◌, if◌then◌else◌,
}
use yitu.Base.Int.{pos}
use yitu.Base.Table.{latest_by}
use yitu.Store.Queries.{find_shipment, find_rule, find_instance, put_instance}
use yitu.Platform.Errors.{Result, ok, err, value_error}
use yitu.Platform.Json.{Key}
use yitu.Shipments.Enums.{
  ShipmentStatus, pending_pickup, in_linehaul, at_destination_station, delivered, cancelled,
}
use yitu.Sla.Calendar.{add_work_hours, hour}
use yitu.Store.Rows.{
  Shipment, SlaRule, SlaInstance, SlaStatus, running, paused, sla_completed, sla_cancelled,
}
use yitu.Store.Session.{Action, new_id, modify, gets, or_raise, raise_if, pure, ◌>>=◌, ◌>>◌}

-- `calculate_promised_at`
unfoldable pub calculate_promised_at : SlaRule → ℕ → Result ℕ
calculate_promised_at rule started_at = elim rule.target_work_hours [
  | some hours ↦ elim (add_work_hours started_at (pos (hours * hour))) [
    | some at ↦ ok at
    | none ↦ err value_error
  ]
  | none ↦ elim rule.target_natural_hours [
    | some hours ↦ ok (started_at + hours * hour)
    | none ↦ err value_error
  ]
]

abbrev pub or_after : Option ℕ → ℕ → Bool
or_after none at = true
or_after (some t) at = ltb at t

unfoldable pub rule_is_effective : SlaRule → ℕ → Bool
rule_is_effective rule at =
    if ltb at rule.effective_from then false else or_after rule.effective_to at

unfoldable pub status_is : SlaStatus → SlaStatus → Bool
status_is running running = true
status_is paused paused = true
status_is sla_completed sla_completed = true
status_is sla_cancelled sla_cancelled = true
status_is _ _ = false

-- The instance of a shipment in a stage.
unfoldable pub find_stage : ℕ → String → List SlaInstance → Option SlaInstance
find_stage shipment_id stage =
    find_first (λ i. (i.sla_shipment == shipment_id) && str_eq i.sla_stage stage)

-- The rule that came into force last among those that apply.
unfoldable pub choose_rule : (SlaRule → Bool) → String → String → ℕ → List SlaRule → Option SlaRule
choose_rule on_route service_type stage at rules =
    latest_by (λ (r : SlaRule). r.effective_from)
      (select
        (λ r.
          (on_route r && str_eq r.service_type service_type)
          && (str_eq r.rule_stage stage && (r.rule_active && rule_is_effective r at)))
        rules)

unfoldable pub rule_or_default : String → String → String → ℕ → List SlaRule → Option SlaRule
rule_or_default route_code =
    choose_rule (λ r. str_eq r.route route_code || str_eq r.route "DEFAULT")

unfoldable pub rule_like : SlaRule → String → ℕ → List SlaRule → Option SlaRule
rule_like latest_rule = choose_rule (λ r. str_eq r.route latest_rule.route) latest_rule.service_type

abbrev pub lift : {A : Type 0} → Result A → Action A
lift r s = (r, s)

-- The part that `start` and `start_recovery_stage` have in common: a running instance is added.
unfoldable pub open_instance : Shipment → SlaRule → String → Action SlaInstance
open_instance shipment rule stage = do
  now ← gets (λ s. s.now)
  promised ← lift (calculate_promised_at rule now)
  instance_id ← new_id
  let row : SlaInstance = record {
    sla_id = instance_id;
    sla_shipment = shipment.id;
    sla_owner = shipment.owner_id;
    sla_rule = rule.rule_id;
    sla_rule_version = rule.rule_version;
    sla_stage = stage;
    sla_status = running;
    sla_started_at = some now;
    promised_delivery_at = some promised;
    eta_at = none;
    sla_completed_at = none;
    paused_seconds = 0;
    breached = false;
    last_scan_key = none;
  }
  modify (λ s. record s { sla_instances = s.sla_instances ++ row ∷ [] })
  pure row

unfoldable pub start : ℕ → String → String → String → Action SlaInstance
start shipment_id route_code stage service_type = do
  shipment ← or_raise (← gets (λ s. find_shipment shipment_id s.shipments)) value_error
  existing ← gets (λ s. find_stage shipment_id stage s.sla_instances)
  elim existing [
    | some i ↦ pure i
    | none ↦ do
      rule ←
          or_raise (← gets (λ s. rule_or_default route_code service_type stage s.now s.sla_rules))
            value_error
      open_instance shipment rule stage
  ]

-- The instance of a shipment that started last; one that has not started comes last.
unfoldable pub latest_instance : ℕ → List SlaInstance → Option SlaInstance
latest_instance shipment_id instances =
    latest_by (λ (i : SlaInstance). elim i.sla_started_at [ some t ↦ t + 1 | none ↦ 0 ])
      (select (λ i. i.sla_shipment == shipment_id) instances)

-- The rest of `start_recovery_stage`, once the rule of the latest instance is known.
recover_under : ℕ → String → SlaRule → Action (Option SlaInstance)
recover_under shipment_id stage latest_rule = do
  rule ← gets (λ s. rule_like latest_rule stage s.now s.sla_rules)
  elim rule [
    | none ↦ pure none
    | some r ↦ do
      shipment ← or_raise (← gets (λ s. find_shipment shipment_id s.shipments)) value_error
      instance_row ← open_instance shipment r stage
      pure (some instance_row)
  ]

unfoldable pub start_recovery_stage : ℕ → String → Action (Option SlaInstance)
unfolding recover_under
start_recovery_stage shipment_id stage = do
  existing ← gets (λ s. find_stage shipment_id stage s.sla_instances)
  latest ← gets (λ s. latest_instance shipment_id s.sla_instances)
  rules ← gets (λ s. s.sla_rules)
  elim existing [
    | some i ↦ pure (some i)
    | none ↦ elim latest [
      | none ↦ pure none
      | some l ↦ elim (find_rule l.sla_rule rules) [
        | none ↦ pure none
        | some latest_rule ↦ recover_under shipment_id stage latest_rule
      ]
    ]
  ]

abbrev pub is_active_of : ℕ → SlaInstance → Bool
is_active_of shipment_id i =
    (i.sla_shipment == shipment_id)
    && (status_is i.sla_status running || status_is i.sla_status paused)

unfoldable pub cancel_active : ℕ → Key → ℕ → List SlaInstance → List SlaInstance
cancel_active shipment_id reason now = update_where (is_active_of shipment_id) λ (i : SlaInstance).
    record i {
      sla_status = sla_cancelled;
      sla_completed_at = some now;
      last_scan_key = some reason;
    }

-- `reason[:128]` is `reason`: the reasons that the services give are short.
unfoldable pub cancel_active_for_shipment : ℕ → Key → Action ℕ
cancel_active_for_shipment shipment_id reason = do
  instances ← gets (λ s. select (is_active_of shipment_id) s.sla_instances)
  modify (λ s. record s { sla_instances = cancel_active shipment_id reason s.now s.sla_instances })
  pure (length instances)

abbrev pub is_late : ℕ → Option ℕ → Bool
is_late now none = false
is_late now (some promised) = ltb promised now

unfoldable pub complete : ℕ → Action SlaInstance
complete instance_id = do
  row ← or_raise (← gets (λ s. find_instance instance_id s.sla_instances)) value_error
  now ← gets (λ s. s.now)
  let done : SlaInstance = record row {
    sla_completed_at = some now;
    sla_status = sla_completed;
    breached = is_late now row.promised_delivery_at;
  }
  elim (status_is row.sla_status sla_completed) [
    | true ↦ pure row
    | false ↦ do
      raise_if (not (status_is row.sla_status running)) value_error
      modify (λ s. record s { sla_instances = put_instance done s.sla_instances })
      pure done
  ]

unfoldable pub complete_all : List SlaInstance → Action (Unit {0})
complete_all [] = pure tt
complete_all (i ∷ is) = complete i.sla_id >> complete_all is

-- `stage_by_status`
abbrev pub stage_by_status : ShipmentStatus → Option String
stage_by_status pending_pickup = some "PICKUP"
stage_by_status in_linehaul = some "LINEHAUL"
stage_by_status at_destination_station = some "DELIVERY"
stage_by_status _ = none

-- `try: … except ValueError: pass`
abbrev pub ignore_value_error : {A : Type 0} → Action A → Action (Unit {0})
ignore_value_error m s =
    let (r, s') = m s in
    elim r [
      | ok a ↦ (ok tt, s')
      | err e ↦ elim e [ value_error ↦ (ok tt, s') | other ↦ (err other, s') ]
    ]

abbrev start_stage : ℕ → Option String → Action (Unit {0})
start_stage shipment_id none = pure tt
start_stage shipment_id (some stage) =
    ignore_value_error (start shipment_id "DEFAULT" stage "STANDARD")

unfoldable pub running_of : ℕ → List SlaInstance → List SlaInstance
running_of shipment_id =
    select (λ i. (i.sla_shipment == shipment_id) && status_is i.sla_status running)

unfoldable pub finish_stages : ℕ → ShipmentStatus → Action (Unit {0})
finish_stages shipment_id delivered = do
  running_rows ← gets (λ s. running_of shipment_id s.sla_instances)
  complete_all running_rows
finish_stages shipment_id cancelled = do
  cancel_active_for_shipment shipment_id (Key.lit "shipment_cancelled")
  pure tt
finish_stages shipment_id _ = pure tt

unfoldable pub sync_shipment_transition : ℕ → ShipmentStatus → Action (Unit {0})
unfolding finish_stages
sync_shipment_transition shipment_id target = do
  start_stage shipment_id (stage_by_status target)
  finish_stages shipment_id target
