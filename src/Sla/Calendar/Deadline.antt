-- ===== src/Sla/Calendar/Deadline.antt =====
-- The loops of `add_work_hours` and `work_hours_between` (backend/src/yitu/sla/calendar.py).
use yitu.Base.{
  ℕ, zero, suc, ◌+◌, ◌-◌, ◌/◌, ◌≤◌, ◌<◌, ◌≡◌, ap, ◌∙◌, true, false, some, ltb, leb, ◌==◌, arith,
  Bool-cases, inl, inr,
}
use yitu.Base.Int.{pos}
use yitu.Sla.Calendar.{
  day, is_workday, at_business_start, period_end, add_loop, add_work_hours, worked_in_day,
  between_loop, work_hours_between,
}
use yitu.Sla.Calendar.Worked.{
  worked, IsWorking, IsNext, next_business_start-IsNext, worked-add, worked-next_day, worked_mono,
  worked_in_day_lem, next_day_parts,
}

-- What a deadline should be: reached after exactly the given working time, and, if there is any,
-- within working time or at the end of it.
abbrev pub IsDeadline : ℕ → ℕ → ℕ → Type 0
IsDeadline start span r =
    (start ≤ r)
    × (worked r ≡ worked start + span)
    × (0 < span → (is_workday r ≡ true) × (at_business_start r < r) × (r ≤ period_end r))

deadline_here :
    (c k : ℕ)
    → IsWorking c
    → c + k ≤ period_end c
    → 0 < k
    → (is_workday (c + k) ≡ true)
      × (at_business_start (c + k) < c + k)
      × (c + k ≤ period_end (c + k))
unfolding is_workday period_end at_business_start
deadline_here c k w h p = ground arith

period_end-pos : (c : ℕ) → IsWorking c → c < period_end c
unfolding period_end
period_end-pos c w = omega arith

next_day-le : (c : ℕ) → c ≤ period_end c → period_end c ≤ at_business_start (c + day)
unfolding period_end at_business_start
next_day-le c h = omega arith

IsDeadline-fits :
    (c n span : ℕ)
    → IsNext c n
    → 0 < span
    → leb span (period_end n - n) ≡ true
    → IsDeadline c span (n + span)
IsDeadline-fits c n span (l, w, k) p fits =
    let t = period_end-pos n w in
    let f : n + span ≤ period_end n = ground arith in
    (omega arith, worked-add n span w f ∙ ap (λ x. x + span) k, λ _. deadline_here n span w f p)

IsDeadline-carries :
    (c n span r : ℕ)
    → IsNext c n
    → leb span (period_end n - n) ≡ false
    → IsDeadline (at_business_start (n + day)) (span - (period_end n - n)) r
    → IsDeadline c span r
IsDeadline-carries c n span r (l, w, k) long (l', k', d) =
    let t = period_end-pos n w in
    let longer : period_end n - n < span = ground arith in
    (omega (arith, next_day-le n), omega (arith, worked-next_day n w), λ p. d (omega arith))

-- The loop of `add_work_hours` ends, and gives the deadline.
add_loop-IsDeadline :
    (fuel c span : ℕ)
    → span < fuel
    → (r : ℕ) × (add_loop fuel c span ≡ some r) × IsDeadline c span r
unfolding add_loop
add_loop-IsDeadline zero c span h = absurd (omega arith)
add_loop-IsDeadline (suc fuel) c span h = elim (Bool-cases (span == 0)) [
  | inl e ↦ (c, rw (e, add_loop), (omega arith, ground arith, λ p. absurd (ground arith)))
  | inr e ↦
      let (n, en, next) = next_business_start-IsNext c in
      let t = period_end-pos n next.1 in
      elim (Bool-cases (leb span (period_end n - n))) [
        | inl fits ↦ (
          n + span,
          rw (e, add_loop, en, fits),
          IsDeadline-fits c n span next (ground arith) fits,
        )
        | inr long ↦
            let (r, er, dl) =
              add_loop-IsDeadline fuel (at_business_start (n + day)) (span - (period_end n - n))
                (ground arith) in
            (r, rw (e, add_loop, en, long) er, IsDeadline-carries c n span r next long dl)
      ]
]

-- `add_work_hours` returns for every start and every span that is not negative: the deadline comes
-- after exactly that much working time, and lies within business hours unless the span is zero.
pub add_work_hours-IsDeadline :
    (start span : ℕ)
    → (r : ℕ) × (add_work_hours start (pos span) ≡ some r) × IsDeadline start span r
unfolding add_work_hours
add_work_hours-IsDeadline start span = add_loop-IsDeadline (span + 1) start span (omega arith)

between_loop_lem :
    (fuel c e total : ℕ)
    → e / day + 2 ≤ fuel + c / day
    → c / day ≤ e / day + 1
    → between_loop fuel c e total ≡ some (total + (worked e - worked c))
unfolding between_loop
between_loop_lem zero c e total h k = absurd (omega arith)
between_loop_lem (suc fuel) c e total h k = elim (Bool-cases (ltb c e)) [
  | inl more ↦
      let ih =
        between_loop_lem fuel (at_business_start (c + day)) e (total + worked_in_day c e)
          (ground (arith, next_day_parts c)) (ground (arith, next_day_parts c)) in
      rw more (ih ∙ ap some (ground (arith, worked_in_day_lem c e)))
  | inr done ↦ rw done (ap some (ground (arith, worked_mono e c)))
]

-- The loop of `work_hours_between` ends, and its result is the difference of the working times that
-- have passed at its two ends, and zero when they are in the wrong order.
pub work_hours_between-eq-worked :
    (start end_local : ℕ)
    → work_hours_between start end_local ≡ some (worked end_local - worked start)
unfolding work_hours_between
work_hours_between-eq-worked start end_local = elim (Bool-cases (leb end_local start)) [
  | inl back ↦ rw back (ap some (ground (arith, worked_mono end_local start)))
  | inr forth ↦ rw forth (
      between_loop_lem (end_local / day + 2 - start / day) start end_local 0 (ground arith)
        (ground arith)
      ∙ ap some (omega arith))
]

-- The working time between a start and the deadline that `add_work_hours` gives for a span is that
-- span.
pub between-add_work_hours :
    (start span : ℕ) {r : ℕ}
    → add_work_hours start (pos span) ≡ some r
    → work_hours_between start r ≡ some span
between-add_work_hours start span {r} h =
    let (r', e, (l, k, d)) = add_work_hours-IsDeadline start span in
    let same : r ≡ r' = cc in work_hours_between-eq-worked start r ∙ ap some (rw same (omega arith))
