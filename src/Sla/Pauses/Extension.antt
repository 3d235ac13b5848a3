-- ===== src/Sla/Pauses/Extension.antt =====
-- How a pause moves the promise of a stage (backend/src/yitu/sla/service.py, `_finish_pause`).
use yitu.Base.{ℕ, ◌+◌, ◌-◌, ◌/◌, ◌≡◌, refl, none, some, Option, inl, inr, arith, Option-cases}
use yitu.Platform.Errors.{ok}
use yitu.Platform.Json.{Key}
use yitu.Sla.Calendar.Worked.{worked}
use yitu.Sla.Calendar.Deadline.{IsDeadline, add_work_hours-IsDeadline, work_hours_between-eq-worked}
use yitu.Sla.Pauses.{extended, finish_pause}
use yitu.Store.Cases.{SlaPause}
use yitu.Store.Queries.{find_rule}
use yitu.Store.Rows.{SlaRule, SlaInstance}
use yitu.Store.Session.{Session}

-- What the promise becomes at the end of a pause: under a rule in working hours, as much working time
-- later as has passed in the pause; under any other rule, as much time later.
abbrev pub IsExtension : SlaRule → ℕ → ℕ → ℕ → ℕ → Type 0
IsExtension rule promised started now later = elim rule.target_work_hours [
  | none ↦ later ≡ promised + (now - started)
  | some _ ↦ IsDeadline promised (worked now - worked started) later
]

extended-IsExtension :
    (rule : SlaRule) (promised started now : ℕ)
    → (later : ℕ) × (extended rule promised started now ≡ some later)
      × IsExtension rule promised started now later
unfolding extended
extended-IsExtension rule promised started now = elim (Option-cases rule.target_work_hours) [
  | inl n ↦ (promised + (now - started), rw n refl, rw n refl)
  | inr (hours, h) ↦
      let (later, e, d) = add_work_hours-IsDeadline promised (worked now - worked started) in
      (later, ground (arith, work_hours_between-eq-worked started now), rw h d)
]

-- The end of a pause of a stage whose rule is there and which has a promise always returns: the
-- promise moves by the length of the pause as the rule counts it, and the pause's whole seconds are
-- added to the seconds that the stage was paused.
pub finish_pause-IsExtension :
    (row : SlaInstance) (p : SlaPause) (key : Option Key) (s : Session) {rule : SlaRule}
    {promised : ℕ}
    → find_rule row.sla_rule s.sla_rules ≡ some rule
    → row.promised_delivery_at ≡ some promised
    → (later : ℕ) × IsExtension rule promised p.pause_started s.now later
      × ((finish_pause row p key s).0
          ≡ ok (record row {
            promised_delivery_at = some later;
            paused_seconds = row.paused_seconds + (s.now - p.pause_started) / 1_000_000;
          }))
unfolding finish_pause
finish_pause-IsExtension row p key s {rule} {promised} f g =
    let (later, e, x) = extended-IsExtension rule promised p.pause_started s.now in
    (later, x, ground arith)
