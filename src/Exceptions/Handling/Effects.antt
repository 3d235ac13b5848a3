-- ===== src/Exceptions/Handling/Effects.antt =====
-- A case after it is worked on (backend/src/yitu/exceptions/service.py).
use Prim.Native.String.{String}
use yitu.Base.{ℕ, ◌≡◌, ◌≢◌, refl, sym, ◌∙◌, ap, true, false, ◌&&◌, some, arith, Option}
use yitu.Base.Table.{by_key_found, by_key-put_row_self, by_key-put_row_ne}
use yitu.Exceptions.Cases.{
  lock_case, assert_can_manage, can_manage, save_case, record_audit, append_owner_notification,
  case_has_active_hold, action_name,
}
use yitu.Exceptions.Handling.{
  action_operation, moved_case, closing_moment, is_close, notify_waiting,
}
use yitu.Exceptions.StateMachine
use yitu.Exceptions.StateMachine.{
  CaseAction, ExceptionStatus, opened, assigned, processing, waiting_for_customer, resolved, closed,
}
use yitu.Platform.Audit.{audit_record}
use yitu.Platform.Errors.{ok, resume_precondition_failed}
use yitu.Platform.Json.{Key}
use yitu.Platform.Outbox.{append}
use yitu.Shipments.Control.{lock_shipment}
use yitu.Shipments.Transition.{lift}
use yitu.Store.Cases.{ExceptionCase}
use yitu.Store.Queries.{find_case, put_case}
use yitu.Store.Rows.{CurrentUser, IdempotencyResponse}
use yitu.Store.Session.{Session, raise_if}
use yitu.Store.Steps.{after, after_read, raise_if-Returned}

-- The moment of the closing of a case that has a status.
abbrev pub closing_moment_of : ExceptionStatus → Option ℕ → ℕ → Option ℕ
closing_moment_of opened before now = before
closing_moment_of assigned before now = before
closing_moment_of processing before now = before
closing_moment_of waiting_for_customer before now = before
closing_moment_of resolved before now = before
closing_moment_of closed before now = some now

closing_moment_lem :
    (status : ExceptionStatus) (before : Option ℕ) (now : ℕ)
    → closing_moment status before now ≡ closing_moment_of status before now
closing_moment_lem status before now = ground arith

lock_case-same : (case_id : ℕ) (s : Session) → (lock_case case_id s).1 ≡ s
unfolding lock_case lock_shipment
lock_case-same case_id s = ground arith

lock_case-found :
    (case_id : ℕ) (s : Session) {row : ExceptionCase}
    → (lock_case case_id s).0 ≡ ok row
    → find_case case_id s.cases ≡ some row
unfolding lock_case lock_shipment
lock_case-found case_id s e = ground arith

abbrev key : ExceptionCase → ℕ
key c = c.case_id

notify_waiting-cases :
    (action : CaseAction) (row : ExceptionCase) (s : Session)
    → (notify_waiting action row s).1.cases ≡ s.cases
unfolding append_owner_notification append lock_shipment
notify_waiting-cases action row s = ground arith

-- The session after the audit entry of a case.
abbrev audited :
    ExceptionCase → CurrentUser → String → ExceptionStatus → Option Key → Key → Session → Session
audited row actor action before reason request_id s =
    (record_audit row actor action before reason request_id s).1

module _ (case_id : ℕ) (action : CaseAction) (actor : CurrentUser) (reason : Option Key)
    (request_id : Key) (s : Session) where
  -- An action that returns moves the case by the state machine: its row had a status from which the
  -- table allows the action, the actor may manage it, and it now has the target status, the moment
  -- of its closing when that is CLOSED, and nothing else is changed; a case that is closed has no
  -- active hold. Every other case is as before.
  pub action_operation-moves :
      {r : IdempotencyResponse} {t : Session}
      → action_operation case_id action actor reason request_id s ≡ (ok r, t)
      → (row : ExceptionCase) × (target : ExceptionStatus) × (find_case case_id s.cases ≡ some row)
        × (StateMachine.transition row.case_status action ≡ ok target)
        × (can_manage row actor ≡ true)
        × ((is_close action && case_has_active_hold case_id s.holds) ≡ false)
        × ((next : ExceptionCase) × (find_case case_id t.cases ≡ some next)
            × (next ≡ record row { case_status = target; case_closed_at = next.case_closed_at })
            × (next.case_closed_at ≡ closing_moment_of target row.case_closed_at s.now))
        × ((j : ℕ) → j ≢ case_id → find_case j t.cases ≡ find_case j s.cases)
  unfolding action_operation record_audit audit_record find_case put_case
  action_operation-moves {r} {t} e =
      after_read (lock_case case_id) _ s (lock_case-same case_id s) e λ row p e.
        after (assert_can_manage row actor) _ s e λ _ may e.
          after
            (raise_if (is_close action && case_has_active_hold row.case_id s.holds)
              resume_precondition_failed)
            _ s e
            λ _ free e.
              after (lift (StateMachine.transition row.case_status action)) _ s e λ target moved e.
                let f = lock_case-found case_id s p in
                let i : row.case_id ≡ case_id = by_key_found key case_id s.cases f in
                let next = moved_case row target s.now in
                let saved =
                  audited next actor (action_name action) row.case_status reason request_id
                    (save_case next s).1 in
                after (notify_waiting action next) _ saved e λ _ _ e.
                  let end : t.cases ≡ put_case next s.cases =
                    ap (λ x. x.1.cases) (sym e) ∙ notify_waiting-cases action next saved in
                  (
                    row,
                    target,
                    f,
                    moved,
                    ground (arith, raise_if-Returned _ _ s may),
                    rw (sym i) (raise_if-Returned _ _ s free),
                    (
                      next,
                      rw (end, sym i) (by_key-put_row_self key next s.cases (rw (i, f) refl)),
                      refl,
                      closing_moment_lem target row.case_closed_at s.now,
                    ),
                    λ j n.
                        ap (find_case j) end
                        ∙ by_key-put_row_ne key j next s.cases (λ q. n (q ∙ i)),
                  )
