-- ===== src/Sla/Calendar.antt =====
-- backend/src/yitu/sla/calendar.py: working time, Monday to Saturday from 09:00 to 18:00.
--
-- A moment is the number of microseconds since some Monday, 00:00, in the business time zone,
-- which has no daylight saving time; a span is a number of microseconds. The loops take fuel and
-- give `none` when it runs out. `hours` of `add_work_hours` is the span `timedelta(hours=hours)`.
pub mod Worked
pub mod Deadline
use yitu.Base.{
  ℕ, zero, suc, ◌+◌, ◌-◌, ◌*◌, ◌/◌, ◌%◌, min, max, Bool, true, false, not, Option, none, some, ltb,
  leb, ◌==◌, if◌then◌else◌,
}
use yitu.Base.Int.{ℤ, pos, negsuc}

abbrev pub hour : ℕ
hour = 3_600_000_000

abbrev pub day : ℕ
day = 86_400_000_000

abbrev pub business_start : ℕ
business_start = 32_400_000_000

-- `timedelta(hours=9)`
abbrev pub business_span : ℕ
business_span = 32_400_000_000

unfoldable pub is_workday : ℕ → Bool
is_workday value = not ((value / day) % 7 == 6)

unfoldable pub at_business_start : ℕ → ℕ
at_business_start value = value / day * day + business_start

-- One round of the `while True` of `_next_business_start`: a moment to return, or none to go on.
abbrev pub start_in_day : ℕ → Option ℕ
unfolding is_workday at_business_start
start_in_day candidate =
    let start = at_business_start candidate in
    if is_workday candidate
    then (if leb candidate start
        then some start
        else if ltb candidate (start + business_span)
        then some candidate
        else none)
    else none

unfoldable pub next_start_loop : ℕ → ℕ → Option ℕ
next_start_loop zero candidate = none
next_start_loop (suc fuel) candidate =
    let rest = next_start_loop fuel (at_business_start (candidate + day)) in
    elim (start_in_day candidate) [ some r ↦ some r | none ↦ rest ]

unfoldable pub next_business_start : ℕ → Option ℕ
unfolding next_start_loop
next_business_start value = next_start_loop 3 value

unfoldable pub period_end : ℕ → ℕ
unfolding at_business_start
period_end value = at_business_start value + business_span

unfoldable pub add_loop : ℕ → ℕ → ℕ → Option ℕ
add_loop zero current remaining = none
add_loop (suc fuel) current remaining = elim (remaining == 0) [
  | true ↦ some current
  | false ↦ elim (next_business_start current) [
    | none ↦ none
    | some c ↦
        let available = period_end c - c in
        let rest = add_loop fuel (at_business_start (c + day)) (remaining - available) in
        if leb remaining available then some (c + remaining) else rest
  ]
]

-- `none` is the `ValueError` of a negative span.
unfoldable pub add_work_hours : ℕ → ℤ → Option ℕ
unfolding add_loop
add_work_hours start (negsuc n) = none
add_work_hours start (pos hours) = add_loop (hours + 1) start hours

-- What one round of `work_hours_between` adds.
abbrev pub worked_in_day : ℕ → ℕ → ℕ
worked_in_day current end_local =
    if is_workday current
    then min end_local (period_end current) - max current (at_business_start current)
    else 0

unfoldable pub between_loop : ℕ → ℕ → ℕ → ℕ → Option ℕ
between_loop zero current end_local total = none
between_loop (suc fuel) current end_local total =
    let rest =
      between_loop fuel (at_business_start (current + day)) end_local
        (total + worked_in_day current end_local) in
    if ltb current end_local then rest else some total

unfoldable pub work_hours_between : ℕ → ℕ → Option ℕ
unfolding between_loop
work_hours_between start_local end_local =
    if leb end_local start_local
    then some 0
    else between_loop (end_local / day + 2 - start_local / day) start_local end_local 0
