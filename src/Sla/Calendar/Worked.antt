-- ===== src/Sla/Calendar/Worked.antt =====
-- What the working time calendar of backend/src/yitu/sla/calendar.py computes, against the working
-- time that has passed since the start of the count, in closed form.
use yitu.Base.{
  ℕ, suc, ◌+◌, ◌-◌, ◌*◌, ◌/◌, ◌%◌, ◌≤◌, ◌<◌, min, ◌≡◌, ◌∙◌, true, none, some, ◌==◌, if◌then◌else◌,
  arith, Option-cases, inl, inr,
}
use yitu.Sla.Calendar.{
  day, business_start, business_span, is_workday, at_business_start, start_in_day, next_start_loop,
  next_business_start, period_end, worked_in_day,
}

-- The working days before a day, counted from a Monday.
abbrev pub workdays_before : ℕ → ℕ
workdays_before d = 6 * (d / 7) + min (d % 7) 6

-- The working time of the first `u` microseconds of a day.
abbrev pub worked_until : ℕ → ℕ → ℕ
worked_until d u = if d % 7 == 6 then 0 else min (u - business_start) business_span

-- The working time from the start of the count to a moment.
abbrev pub worked : ℕ → ℕ
worked t = business_span * workdays_before (t / day) + worked_until (t / day) (t % day)

-- A moment within working time.
abbrev pub IsWorking : ℕ → Type 0
IsWorking t =
    (is_workday t ≡ true) × (at_business_start t ≤ t) × (t < at_business_start t + business_span)

workdays_before_suc :
    (d : ℕ) → workdays_before (d + 1) ≡ workdays_before d + (if d % 7 == 6 then 0 else 1)
workdays_before_suc d = ground arith

-- The start of business on the next day.
pub next_day_parts :
    (t : ℕ)
    → (at_business_start (t + day) / day ≡ t / day + 1)
      × (at_business_start (t + day) % day ≡ business_start)
unfolding at_business_start
next_day_parts t = omega arith

start_in_day-some :
    (t : ℕ) {r : ℕ} → start_in_day t ≡ some r → (t ≤ r) × IsWorking r × (worked r ≡ worked t)
unfolding is_workday at_business_start
start_in_day-some t h = ground arith

start_in_day-none :
    (t : ℕ)
    → start_in_day t ≡ none
    → (t < at_business_start (t + day)) × (worked (at_business_start (t + day)) ≡ worked t)
unfolding is_workday at_business_start
start_in_day-none t h = ground (arith, workdays_before_suc (t / day))

start_in_day_at_start : (t : ℕ) → start_in_day (at_business_start t) ≡ none → (t / day) % 7 ≡ 6
unfolding is_workday at_business_start
start_in_day_at_start t h = ground arith

-- The moment that `_next_business_start` should give: within working time, not before `t`, with no
-- working time in between.
abbrev pub IsNext : ℕ → ℕ → Type 0
IsNext t r = (t ≤ r) × IsWorking r × (worked r ≡ worked t)

next_start_loop-some :
    (f t : ℕ) {r : ℕ} → start_in_day t ≡ some r → next_start_loop (suc f) t ≡ some r
unfolding next_start_loop is_workday at_business_start
next_start_loop-some f t h = rw (h, next_start_loop)

next_start_loop-none :
    (f t : ℕ)
    → start_in_day t ≡ none
    → next_start_loop (suc f) t ≡ next_start_loop f (at_business_start (t + day))
unfolding next_start_loop is_workday at_business_start
next_start_loop-none f t h = rw (h, next_start_loop)

-- `_next_business_start` returns, after at most three rounds, the first moment of working time that
-- is not before the given one.
pub next_business_start-IsNext : (t : ℕ) → (r : ℕ) × (next_business_start t ≡ some r) × IsNext t r
unfolding next_business_start
next_business_start-IsNext t =
    let t' = at_business_start (t + day) in
    let t'' = at_business_start (t' + day) in
    elim (Option-cases (start_in_day t)) [
      | inr (r, e) ↦ (r, next_start_loop-some 2 t e, start_in_day-some t e)
      | inl e ↦ elim (Option-cases (start_in_day t')) [
        | inr (r, e') ↦
            let (m, w, k) = start_in_day-some t' e' in
            let (l, j) = start_in_day-none t e in
            (r, next_start_loop-none 2 t e ∙ next_start_loop-some 1 t' e', (omega arith, w, k ∙ j))
        | inl e' ↦ elim (Option-cases (start_in_day t'')) [
          | inr (r, e'') ↦
              let (m, w, k) = start_in_day-some t'' e'' in
              let (l, j) = start_in_day-none t e in
              let (l', j') = start_in_day-none t' e' in
              (
                r,
                next_start_loop-none 2 t e
                    ∙ next_start_loop-none 1 t' e'
                    ∙ next_start_loop-some 0 t'' e'',
                (omega arith, w, k ∙ j' ∙ j),
              )
          | inl e'' ↦ absurd (
              omega (
                arith,
                start_in_day_at_start (t + day) e',
                start_in_day_at_start (t' + day) e'',
                next_day_parts t,
              ))
        ]
      ]
    ]

pub worked-add : (c k : ℕ) → IsWorking c → c + k ≤ period_end c → (worked (c + k) ≡ worked c + k)
unfolding is_workday period_end at_business_start
worked-add c k w h = ground arith

pub worked-next_day :
    (c : ℕ) → IsWorking c → worked (at_business_start (c + day)) ≡ worked c + (period_end c - c)
unfolding is_workday period_end at_business_start
worked-next_day c w = ground (arith, workdays_before_suc (c / day))

pub worked_mono : (a b : ℕ) → a ≤ b → worked a ≤ worked b
worked_mono a b h = ground arith

pub worked_in_day_lem :
    (c e : ℕ)
    → c < e
    → worked_in_day c e + (worked e - worked (at_business_start (c + day))) ≡ worked e - worked c
unfolding is_workday period_end at_business_start
worked_in_day_lem c e h = ground (arith, workdays_before_suc (c / day))
