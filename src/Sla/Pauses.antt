-- ===== src/Sla/Pauses.antt =====
-- backend/src/yitu/sla/service.py: the pauses of a stage, and its expected arrival.
--
-- Moments and spans are in microseconds, as in Sla/Calendar, and the clock does not run backwards:
-- a pause ends no earlier than it began. `worked.total_seconds() / 3600` hours are the span itself.
pub mod Extension
pub mod Frame
pub mod Consistency
pub mod Invariant
use Prim.Native.String.{String}
use package.text.Mathlib.Text.{◌==◌ as str_eq}
use yitu.Base.{
  ℕ, ◌+◌, ◌-◌, ◌/◌, Bool, true, false, ◌&&◌, ◌||◌, not, Option, none, some, List, [], ◌∷◌, ◌++◌,
  find_first, select, any_of, is_some, ◌==◌, opt_eq,
}
use yitu.Base.Int.{pos}
use yitu.Base.Table.{latest_by}
use yitu.Platform.Errors.{value_error}
use yitu.Platform.Json.{Key}
use yitu.Sla.Calendar.{add_work_hours, work_hours_between}
use yitu.Sla.Service.{status_is}
use yitu.Store.Cases.{SlaPause}
use yitu.Store.Queries.{find_rule, find_instance, put_instance, put_pause}
use yitu.Store.Rows.{SlaRule, SlaInstance, SlaStatus, running, paused}
use yitu.Store.Session.{Action, new_id, modify, gets, or_raise, raise_if, pure, ◌>>=◌, ◌>>◌}

-- `_get_instance`
unfoldable pub get_instance : ℕ → Action SlaInstance
get_instance instance_id = do
  or_raise (← gets (λ s. find_instance instance_id s.sla_instances)) value_error

abbrev pub save_instance : SlaInstance → Action (Unit {0})
save_instance row = modify (λ s. record s { sla_instances = put_instance row s.sla_instances })

abbrev pub save_pause : SlaPause → Action (Unit {0})
save_pause row = modify (λ s. record s { pauses = put_pause row s.pauses })

abbrev pub add_pause : SlaPause → Action (Unit {0})
add_pause row = modify (λ s. record s { pauses = s.pauses ++ row ∷ [] })

-- A pause of an instance that has not ended.
abbrev pub is_open_pause : ℕ → SlaPause → Bool
is_open_pause instance_id p = (p.pause_instance == instance_id) && not (is_some p.pause_ended)

abbrev pub source_is : Option String → String → Bool
source_is none t = false
source_is (some s) t = str_eq s t

abbrev pub is_from : String → ℕ → SlaPause → Bool
is_from source_type source_id p =
    source_is p.pause_source source_type && opt_eq p.pause_source_id (some source_id)

unfoldable pub find_open_pause : ℕ → String → ℕ → List SlaPause → Option SlaPause
find_open_pause instance_id source_type source_id =
    find_first (λ p. is_open_pause instance_id p && is_from source_type source_id p)

unfoldable pub has_open_pause : ℕ → List SlaPause → Bool
has_open_pause instance_id = any_of (is_open_pause instance_id)

-- The open pause that began last.
unfoldable pub latest_open_pause : ℕ → List SlaPause → Option SlaPause
latest_open_pause instance_id ps =
    latest_by (λ (p : SlaPause). p.pause_started) (select (is_open_pause instance_id) ps)

-- The row of a pause without a source.
abbrev pub plain_pause : SlaInstance → Key → ℕ → ℕ → SlaPause
plain_pause row reason pause_id now = record {
  pause_id = pause_id;
  pause_instance = row.sla_id;
  pause_reason = reason;
  reason_code = none;
  pause_source = none;
  pause_source_id = none;
  pause_actor = none;
  pause_key = none;
  resume_key = none;
  pause_started = now;
  pause_ended = none;
  duration_seconds = 0;
}

unfoldable pub pause : ℕ → Key → Action SlaInstance
unfolding get_instance
pause instance_id reason = do
  row ← get_instance instance_id
  elim (status_is row.sla_status paused) [
    | true ↦ pure row
    | false ↦ do
      raise_if (not (status_is row.sla_status running)) value_error
      save_instance (record row { sla_status = paused })
      pause_id ← new_id
      now ← gets (λ s. s.now)
      add_pause (plain_pause row reason pause_id now)
      pure (record row { sla_status = paused })
  ]

abbrev pub can_be_paused : SlaStatus → Bool
can_be_paused status = status_is status running || status_is status paused

-- The row of a pause that a source begins.
abbrev pub source_pause : SlaInstance → Key → Key → String → ℕ → ℕ → Key → ℕ → ℕ → SlaPause
source_pause row reason code source_type source_id actor_id key pause_id now = record {
  pause_id = pause_id;
  pause_instance = row.sla_id;
  pause_reason = reason;
  reason_code = some code;
  pause_source = some source_type;
  pause_source_id = some source_id;
  pause_actor = some actor_id;
  pause_key = some key;
  resume_key = none;
  pause_started = now;
  pause_ended = none;
  duration_seconds = 0;
}

-- The rest of `pause_for_source`, when the source has no open pause.
unfoldable pub begin_pause : SlaInstance → Key → Key → String → ℕ → ℕ → Key → Action SlaInstance
begin_pause row reason code source_type source_id actor_id key = do
  raise_if (not (can_be_paused row.sla_status)) value_error
  save_instance (record row { sla_status = paused })
  pause_id ← new_id
  now ← gets (λ s. s.now)
  add_pause (source_pause row reason code source_type source_id actor_id key pause_id now)
  pure (record row { sla_status = paused })

unfoldable pub pause_for_source : ℕ → Key → Key → String → ℕ → ℕ → Key → Action SlaInstance
unfolding get_instance
pause_for_source instance_id reason code source_type source_id actor_id key = do
  row ← get_instance instance_id
  existing ← gets (λ s. find_open_pause row.sla_id source_type source_id s.pauses)
  elim existing [
    | some p ↦ pure row
    | none ↦ begin_pause row reason code source_type source_id actor_id key
  ]

-- The promise of a stage after a pause from `started` to `now`.
unfoldable pub extended : SlaRule → ℕ → ℕ → ℕ → Option ℕ
extended rule promised started now = elim rule.target_work_hours [
  | none ↦ some (promised + (now - started))
  | some _ ↦ elim (work_hours_between started now) [
    | none ↦ none
    | some worked ↦ add_work_hours promised (pos worked)
  ]
]

-- `int(duration.total_seconds())`
abbrev pub whole_seconds : ℕ → ℕ
whole_seconds span = span / 1_000_000

abbrev pub ended : SlaPause → ℕ → Option Key → SlaPause
ended p now key = record p {
  pause_ended = some now;
  duration_seconds = whole_seconds (now - p.pause_started);
  resume_key = key;
}

abbrev pub counted : SlaInstance → SlaPause → ℕ → SlaInstance
counted row p now = record row {
  paused_seconds = row.paused_seconds + whole_seconds (now - p.pause_started);
}

-- `_finish_pause`: the instance as it leaves it.
unfoldable pub finish_pause : SlaInstance → SlaPause → Option Key → Action SlaInstance
finish_pause row p key = do
  now ← gets (λ s. s.now)
  save_pause (ended p now key)
  save_instance (counted row p now)
  rule ← or_raise (← gets (λ s. find_rule row.sla_rule s.sla_rules)) value_error
  promised ← or_raise row.promised_delivery_at value_error
  later ← or_raise (extended rule promised p.pause_started now) value_error
  save_instance (record (counted row p now) { promised_delivery_at = some later })
  pure (record (counted row p now) { promised_delivery_at = some later })

abbrev pub set_running : SlaInstance → Action SlaInstance
set_running row = do
  save_instance (record row { sla_status = running })
  pure (record row { sla_status = running })

unfoldable pub resume : ℕ → Action SlaInstance
unfolding get_instance
resume instance_id = do
  row ← get_instance instance_id
  elim (status_is row.sla_status running) [
    | true ↦ pure row
    | false ↦ do
      raise_if (not (status_is row.sla_status paused)) value_error
      p ← or_raise (← gets (λ s. latest_open_pause row.sla_id s.pauses)) value_error
      finished ← finish_pause row p p.resume_key
      set_running finished
  ]

-- The rest of `resume_for_source`, when the source has an open pause.
unfoldable pub end_pause : SlaInstance → SlaPause → Key → Action SlaInstance
end_pause row p key = do
  finished ← finish_pause row p (some key)
  other ← gets (λ s. has_open_pause row.sla_id s.pauses)
  elim other [ true ↦ pure finished | false ↦ set_running finished ]

unfoldable pub resume_for_source : ℕ → String → ℕ → Key → Action SlaInstance
unfolding get_instance
resume_for_source instance_id source_type source_id key = do
  row ← get_instance instance_id
  found ← gets (λ s. find_open_pause row.sla_id source_type source_id s.pauses)
  elim found [ none ↦ pure row | some p ↦ end_pause row p key ]

-- `calculate_eta`
abbrev pub calculate_eta : SlaInstance → ℕ → Option ℕ
calculate_eta row expected_delay = elim row.promised_delivery_at [
  | none ↦ none
  | some promised ↦ some (promised + expected_delay)
]

unfoldable pub update_eta : ℕ → ℕ → Action SlaInstance
unfolding get_instance
update_eta instance_id expected_delay = do
  row ← get_instance instance_id
  save_instance (record row { eta_at = calculate_eta row expected_delay })
  pure (record row { eta_at = calculate_eta row expected_delay })
