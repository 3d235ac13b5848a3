-- ===== src/Exceptions/Reassigning/Tasks.antt =====
-- The tasks after a reassignment (backend/src/yitu/exceptions/service.py).
use yitu.Base.{ℕ, ◌≡◌, ◌≢◌, refl, sym, ◌∙◌, ap, true, none, some, not, List, [], ◌∷◌, ◌++◌, arith}
use yitu.Base.Table.{
  by_key_found, by_key-append, by_key-put_row_self, by_key-put_row_ne, by_key-snoc_new,
  by_key-snoc_ne,
}
use yitu.Exceptions.Cases.{require_operations_admin, lock_case, record_audit}
use yitu.Exceptions.Reassigning.{
  replaced, replace_task, is_replaceable, is_being_handled, reassign_operation,
}
use yitu.Platform.Audit.{audit_record}
use yitu.Platform.Errors.{ok, task_not_reassignable}
use yitu.Platform.Json.{Key}
use yitu.Shipments.Control.{lock_shipment, is_open}
use yitu.Store.Queries.{find_task, put_task}
use yitu.Store.Rows.{CurrentUser, CourierTask, available, task_cancelled, IdempotencyResponse}
use yitu.Store.Session.{Session, raise_if, or_raise}
use yitu.Store.Steps.{after, after_read, or_raise-Returned, or_raise-same, raise_if-Returned}

-- The task that takes the place of another: it waits at the same station for the same work.
abbrev pub successor : CourierTask → ℕ → CourierTask
successor old id = record {
  task_id = id;
  task_shipment = old.task_shipment;
  station_id = old.station_id;
  task_type = old.task_type;
  task_status = available;
  assignee_id = none;
  closed_reason = none;
  closed_at = none;
  replaced_by_task_id = none;
}

-- What the table of the tasks holds after one of them is replaced.
abbrev pub IsReplacement : ℕ → CourierTask → Key → Session → List CourierTask → Type 0
IsReplacement k old reason s ts =
    (find_task k ts
      ≡ some (record old {
        task_status = task_cancelled;
        closed_reason = some reason;
        closed_at = some s.now;
        replaced_by_task_id = some s.next_id;
      }))
    × (find_task s.next_id ts ≡ some (successor old s.next_id))
    × ((j : ℕ) → j ≢ k → j ≢ s.next_id → find_task j ts ≡ find_task j s.tasks)

replace_task-IsReplacement :
    (k : ℕ) (old : CourierTask) (reason : Key) (s : Session)
    → find_task k s.tasks ≡ some old
    → find_task s.next_id s.tasks ≡ none
    → IsReplacement k old reason s (replace_task old reason s).1.tasks
unfolding replace_task find_task put_task
replace_task-IsReplacement k old reason s f n =
    let key = λ (t : CourierTask). t.task_id in
    let new = successor old s.next_id in
    let gone = replaced old reason s.now s.next_id in
    let i : old.task_id ≡ k = by_key_found key k s.tasks f in
    let apart : s.next_id ≢ old.task_id = λ p. absurd (ground (arith, i, p)) in
    let kept = by_key-append key k s.tasks (new ∷ []) f in
    (
      rw (sym i) (by_key-put_row_self key gone (s.tasks ++ new ∷ []) (rw (i, kept) refl)),
      by_key-put_row_ne key s.next_id gone (s.tasks ++ new ∷ []) apart
          ∙ by_key-snoc_new key new s.tasks n,
      λ j p q.
          by_key-put_row_ne key j gone (s.tasks ++ new ∷ []) (λ e. p (e ∙ i))
          ∙ by_key-snoc_ne key j new s.tasks q,
    )

lock_case-same : (case_id : ℕ) (s : Session) → (lock_case case_id s).1 ≡ s
unfolding lock_case lock_shipment
lock_case-same case_id s = ground arith

module _ (case_id old_task_id : ℕ) (reason : Key) (actor : CurrentUser) (key request_id : Key)
    (s : Session) where
  -- A reassignment that returns has found an open task with the id, has cancelled it, with the reason
  -- and the moment, in favour of a new one, which is available at the same station for the same work and shipment, and has left
  -- every other task alone; the new id is not in use before.
  pub reassign_operation-IsReplacement :
      {r : IdempotencyResponse} {t : Session}
      → find_task s.next_id s.tasks ≡ none
      → reassign_operation case_id old_task_id reason actor key request_id s ≡ (ok r, t)
      → (old : CourierTask) × (find_task old_task_id s.tasks ≡ some old)
        × (is_open old.task_status ≡ true)
        × IsReplacement old_task_id old reason s t.tasks
  unfolding reassign_operation record_audit audit_record
  reassign_operation-IsReplacement {r} {t} n e =
      after (require_operations_admin actor) _ s e λ _ _ e.
        after_read (lock_case case_id) _ s (lock_case-same case_id s) e λ row _ e.
          after (raise_if (not (is_being_handled row.case_status)) task_not_reassignable) _ s e
            λ _ _ e.
              after_read (or_raise (find_task old_task_id s.tasks) task_not_reassignable) _ s
                (or_raise-same _ _ s) e
                λ old p e.
                  after (raise_if (not (is_replaceable row old)) task_not_reassignable) _ s e
                    λ _ o e. after (replace_task old reason) _ s e λ new _ e.
                      let f : find_task old_task_id s.tasks ≡ some old =
                        or_raise-Returned _ _ s p in
                      let still : is_open old.task_status ≡ true =
                        ground (arith, raise_if-Returned _ _ s o) in
                      let end : t.tasks ≡ (replace_task old reason s).1.tasks =
                        ap (λ r. r.1.tasks) (sym e) in
                      (
                        old,
                        f,
                        still,
                        rw end (replace_task-IsReplacement old_task_id old reason s f n),
                      )
