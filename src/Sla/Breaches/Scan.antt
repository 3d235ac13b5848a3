-- ===== src/Sla/Breaches/Scan.antt =====
-- A second scan finds nothing to do (backend/src/yitu/sla/service.py, `scan_breaches`).
use yitu.Base.{
  ℕ, ◌≡◌, refl, sym, ap, Bool, true, not, ◌&&◌, ◌||◌, List, [], ◌∷◌, all_of, ==_self, arith,
  Bool-cases, inl, inr, if◌then◌else◌,
}
use yitu.Base.Table.{put_row}
use yitu.Platform.Audit.{audit_record}
use yitu.Platform.Errors.{ok}
use yitu.Platform.Json.{Key}
use yitu.Platform.Outbox.{append}
use yitu.Shipments.Control.{contains}
use yitu.Sla.Breaches.{
  is_due, scanned_with, marked, mark_breach, open_breach_case, report_breach, scan_loop,
  scan_breaches, due_instances,
}
use yitu.Store.Queries.{put_instance}
use yitu.Store.Rows.{SlaInstance}
use yitu.Store.Session.{Session, Action, pure, ◌>>=◌, ◌>>◌}
use yitu.Store.Steps.{Returned, after}

-- A stage that a scan has to mark.
abbrev is_pending : ℕ → Key → SlaInstance → Bool
is_pending now key row = is_due now row && not (scanned_with row key)

-- The ids of the rows that the loop marks.
abbrev marked_ids : Key → List SlaInstance → List ℕ
marked_ids key [] = []
marked_ids key (row ∷ rows) =
    let rest = marked_ids key rows in if scanned_with row key then rest else row.sla_id ∷ rest

-- Whether each stage of the table that has to be marked has one of the ids.
abbrev is_covered : ℕ → Key → List ℕ → SlaInstance → Bool
is_covered now key ids row = not (is_pending now key row) || contains row.sla_id ids

covered-suc :
    (now : ℕ) (key : Key) (i : ℕ) (ids : List ℕ) (rows : List SlaInstance)
    → all_of (is_covered now key ids) rows ≡ true
    → all_of (is_covered now key (i ∷ ids)) rows ≡ true
covered-suc now key i ids [] h = refl
covered-suc now key i ids (x ∷ rows) h = ground (arith, covered-suc now key i ids rows)

covered-due :
    (now : ℕ) (key : Key) (rows : List SlaInstance)
    → all_of (is_covered now key (marked_ids key (due_instances now rows))) rows ≡ true
unfolding due_instances
covered-due now key [] = refl
covered-due now key (x ∷ rows) = elim (Bool-cases (is_due now x)) [
  | inl d ↦ elim (Bool-cases (scanned_with x key)) [
    | inl c ↦ ground (arith, covered-due now key rows)
    | inr c ↦ ground (
      arith,
      ==_self x.sla_id,
      covered-due now key rows,
      covered-suc now key x.sla_id (marked_ids key (due_instances now rows)) rows,
    )
  ]
  | inr d ↦ ground (arith, covered-due now key rows)
]

covered-marked :
    (now : ℕ) (key mark : Key) (row : SlaInstance) (ids : List ℕ) (rows : List SlaInstance)
    → all_of (is_covered now key (row.sla_id ∷ ids)) rows ≡ true
    → all_of (is_covered now key ids) (put_instance (marked row mark) rows) ≡ true
unfolding put_instance put_row
covered-marked now key mark row ids [] h = refl
covered-marked now key mark row ids (x ∷ rows) h =
    ground (arith, covered-marked now key mark row ids rows)

none_pending :
    (now : ℕ) (key : Key) (rows : List SlaInstance)
    → all_of (is_covered now key []) rows ≡ true
    → marked_ids key (due_instances now rows) ≡ []
unfolding due_instances
none_pending now key [] h = refl
none_pending now key (x ∷ rows) h = ground (arith, none_pending now key rows)

scan_loop-nothing :
    (key : Key) (rows : List SlaInstance) (s : Session)
    → marked_ids key rows ≡ []
    → scan_loop key rows s ≡ (ok [], s)
unfolding scan_loop
scan_loop-nothing key [] s h = refl
scan_loop-nothing key (x ∷ rows) s h = ground (arith, scan_loop-nothing key rows s)

-- The report of a breach leaves the stages and the clock alone.
open_breach_case-frame :
    (row : SlaInstance) (key : Key) (s : Session)
    → let t = (open_breach_case row key s).1 in
      (t.sla_instances ≡ s.sla_instances) × (t.now ≡ s.now)
unfolding open_breach_case report_breach audit_record append
open_breach_case-frame row key s = (ground arith, ground arith)

mark_breach-frame :
    (row : SlaInstance) (key : Key) (s : Session)
    → let t = (mark_breach row key s).1 in
      (t.sla_instances ≡ put_instance (marked row key) s.sla_instances) × (t.now ≡ s.now)
unfolding mark_breach
mark_breach-frame row key s =
    open_breach_case-frame (marked row key) key
      (record s { sla_instances = put_instance (marked row key) s.sla_instances })

abbrev scan_rest : Key → SlaInstance → List SlaInstance → Action (List SlaInstance)
scan_rest key row rows = scan_loop key rows >>= λ changed. pure (marked row key ∷ changed)

scan_loop-covers :
    (key : Key) (rows : List SlaInstance) (s : Session) {cs : List SlaInstance} {t : Session}
    → all_of (is_covered s.now key (marked_ids key rows)) s.sla_instances ≡ true
    → Returned (scan_loop key rows) s cs t
    → all_of (is_covered t.now key []) t.sla_instances ≡ true
unfolding scan_loop
scan_loop-covers key [] s {cs} {t} h e = ground (arith, e)
scan_loop-covers key (x ∷ rows) s {cs} {t} h e = elim (Bool-cases (scanned_with x key)) [
  | inl c ↦ scan_loop-covers key rows s {cs = cs} {t = t} (ground arith) (ground (arith, e))
  | inr c ↦
      let e' : Returned (mark_breach x key >> scan_rest key x rows) s cs t = ground (arith, e) in
      after (mark_breach x key) _ s e' λ _ _ e.
        let u = (mark_breach x key s).1 in
        let (inst, now) = mark_breach-frame x key s in
        after (scan_loop key rows) _ u e λ changed g e.
          let end : t ≡ (scan_loop key rows u).1 = ap (λ r. r.1) (sym e) in
          rw end (
            scan_loop-covers key rows u
              (rw (inst, now)
                (covered-marked s.now key key x (marked_ids key rows) s.sla_instances
                  (ground arith)))
              (ap (λ r. (r, (scan_loop key rows u).1)) g))
]

-- A scan that returned has nothing left to do: the same scan run again at once returns no stage and
-- writes nothing.
pub scan_breaches_again :
    (key : Key) (s : Session) {cs : List SlaInstance} {t : Session}
    → scan_breaches key s ≡ (ok cs, t)
    → scan_breaches key t ≡ (ok [], t)
unfolding scan_breaches
scan_breaches_again key s {cs} {t} e =
    let done =
      scan_loop-covers key (due_instances s.now s.sla_instances) s {cs = cs} {t = t}
        (covered-due s.now key s.sla_instances) e in
    scan_loop-nothing key (due_instances t.now t.sla_instances) t
      (none_pending t.now key t.sla_instances done)
