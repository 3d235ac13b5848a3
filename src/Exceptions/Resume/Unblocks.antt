-- ===== src/Exceptions/Resume/Unblocks.antt =====
-- A shipment after its resume (backend/src/yitu/exceptions/service.py).
use yitu.Base.{
  ℕ, not, ◌≡◌, refl, sym, ap, false, some, List, [], ◌∷◌, length, arith, eq-of_==, Option-cases,
  inl, inr,
}
use yitu.Exceptions.Cases.{require_operations_admin}
use yitu.Exceptions.Resume.{
  active_holds, active_pauses, source_ids, frozen_status_of, require_resolved, resume_pauses,
  resume_pause, report_resume, release_all, resume_operation, unblock_cases,
}
use yitu.Exceptions.Resume.Releases.{release_covers}
use yitu.Platform.Audit.{audit_record}
use yitu.Platform.Errors.{ok, resume_target_mismatch}
use yitu.Platform.Json.{Key, lit, ident, ◌⊹◌}
use yitu.Platform.Outbox.{append}
use yitu.Shipments.Control.{
  lock_shipment, is_blocked, lock_and_assert_fulfillment_allowed, release_exception_holds,
  assert_resume_preconditions,
}
use yitu.Shipments.Control.Holds.{release-is_blocked, assert_resume-same, lock_shipment-same}
use yitu.Shipments.Enums.{ShipmentStatus, status_eq}
use yitu.Sla.Pauses.Frame.{PausesOnly, resume_for_source-PausesOnly}
use yitu.Store.Cases.{SlaPause, ExceptionCase}
use yitu.Store.Queries.{find_shipment, find_shipment-id}
use yitu.Store.Rows.{CurrentUser, Shipment, ShipmentHold, IdempotencyResponse}
use yitu.Store.Session.{Session, raise_if}
use yitu.Store.Steps.{Returned, bind-Returned, read-Returned, or_raise-Returned}
use yitu.Tracking.{append_tracking_event, add_event}

resume_pause-PausesOnly :
    (p : SlaPause) (key : Key) (s : Session) → PausesOnly s (resume_pause p key s).1
resume_pause-PausesOnly p key s = elim (Option-cases p.pause_source_id) [
  | inl n ↦ ground arith
  | inr (i, f) ↦ ground (
    arith,
    resume_for_source-PausesOnly p.pause_instance "EXCEPTION_CASE" i
        (lit "sla:resume:" ⊹ ident i ⊹ lit ":" ⊹ key) s,
  )
]

resume_pauses-PausesOnly :
    (ps : List SlaPause) (key : Key) (s : Session) → PausesOnly s (resume_pauses ps key s).1
unfolding resume_pauses
resume_pauses-PausesOnly [] key s = refl
resume_pauses-PausesOnly (p ∷ ps) key s = ground (
  arith,
  resume_pause-PausesOnly p key s,
  resume_pauses-PausesOnly ps key (resume_pause p key s).1,
)

frozen_status_of-same : (hs : List ShipmentHold) (s : Session) → (frozen_status_of hs s).1 ≡ s
unfolding frozen_status_of
frozen_status_of-same [] s = refl
frozen_status_of-same (h ∷ hs) s = ground arith

require_resolved-same : (hs : List ShipmentHold) (s : Session) → (require_resolved hs s).1 ≡ s
unfolding require_resolved
require_resolved-same hs s = ground arith

require_resolved-length :
    (hs : List ShipmentHold) (s : Session) {cs : List ExceptionCase}
    → (require_resolved hs s).0 ≡ ok cs
    → length (source_ids hs) ≡ length hs
unfolding require_resolved
require_resolved-length hs s {cs} e = ground (arith, eq-of_== (length (source_ids hs)) (length hs))

-- The report of a resume leaves the shipments and the holds alone.
report_resume-frame :
    (x : Shipment) (target : ShipmentStatus) (n m : ℕ) (reason : Key) (actor : CurrentUser)
    (key request_id : Key) (s : Session)
    → let t = (report_resume x target n m reason actor key request_id s).1 in
      (t.shipments ≡ s.shipments) × (t.holds ≡ s.holds)
unfolding report_resume append_tracking_event add_event audit_record append
report_resume-frame x target n m reason actor key request_id s = (ground arith, ground arith)

release_all-is_blocked :
    (k : ℕ) (x : Shipment) (target : ShipmentStatus) (reason : Key) (actor : CurrentUser)
    (key request_id : Key) (s : Session) {n : ℕ} {t : Session}
    → x.id ≡ k
    → let hs = active_holds k s.holds in
      length (source_ids hs) ≡ length hs
      → Returned (release_all x target hs reason actor key request_id) s n t
      → (is_blocked k t.holds ≡ false) × (t.shipments ≡ s.shipments)
unfolding release_all
release_all-is_blocked k x target reason actor key request_id s {n} {t} id l e =
    let hs = active_holds k s.holds in
    let ids = source_ids hs in
    let s1 = (resume_pauses (active_pauses ids s.pauses) key s).1 in
    let s2 = (release_exception_holds x.id "EXCEPTION_CASE" ids actor key s1).1 in
    let s3 = (unblock_cases ids s2).1 in
    let (u, p, q) = bind-Returned (resume_pauses (active_pauses ids s.pauses) key) _ s e in
    let (rs, p', q') =
      bind-Returned (release_exception_holds x.id "EXCEPTION_CASE" ids actor key) _ s1 q in
    let (u', p'', q'') =
      bind-Returned (report_resume x target (length hs) (length rs) reason actor key request_id) _
        s3 q' in
    let frame = resume_pauses-PausesOnly (active_pauses ids s.pauses) key s in
    let (blocked, only) = release-is_blocked x.id "EXCEPTION_CASE" ids actor key s1 p' in
    let (ships, holds) =
      report_resume-frame x target (length hs) (length rs) reason actor key request_id s3 in
    let same : t
        ≡ (report_resume x target (length hs) (length rs) reason actor key request_id s3).1 =
      ap (λ r. r.1) (sym q'') in
    let kept : s1.holds ≡ s.holds = ap (λ (r : Session). r.holds) frame in
    (
      ground (arith, same, holds, blocked, kept, id, release_covers k s.holds l),
      rw
          (
            same,
            ships,
            ap (λ (r : Session). r.shipments) only,
            ap (λ (r : Session). r.shipments) frame,
          )
          refl,
    )

module _ (k : ℕ) (target_status : ShipmentStatus) (reason : Key) (actor : CurrentUser)
    (key request_id : Key) (s : Session) where
  -- Once a resume returns, no active hold stands on the shipment, whose row is found as before, and
  -- the lock for fulfilment gives it.
  pub resume_operation-unblocks :
      {r : IdempotencyResponse} {t : Session}
      → resume_operation k target_status reason actor key request_id s ≡ (ok r, t)
      → (is_blocked k t.holds ≡ false)
        × ((x : Shipment) × (find_shipment k s.shipments ≡ some x)
            × (lock_and_assert_fulfillment_allowed k t ≡ (ok x, t)))
  unfolding resume_operation lock_shipment lock_and_assert_fulfillment_allowed
  resume_operation-unblocks {r} {t} e =
      let hs = active_holds k s.holds in
      let (u, p, q) = bind-Returned (require_operations_admin actor) _ s e in
      let (x, p1, q1) = read-Returned (lock_shipment k) _ s (lock_shipment-same k s) q in
      let f : find_shipment k s.shipments ≡ some x = or_raise-Returned _ _ s p1 in
      let id : x.id ≡ k = find_shipment-id k s.shipments f in
      let (st, p2, q2) = read-Returned (frozen_status_of hs) _ s (frozen_status_of-same hs s) q1 in
      let (u', p3, q3) =
        bind-Returned (raise_if (not (status_eq target_status st)) resume_target_mismatch) _ s q2 in
      let (cs, p4, q4) = read-Returned (require_resolved hs) _ s (require_resolved-same hs s) q3 in
      let (u'', p5, q5) =
        read-Returned (assert_resume_preconditions x st) _ s (assert_resume-same x st s) q4 in
      let (n, p6, q6) = bind-Returned (release_all x st hs reason actor key request_id) _ s q5 in
      let (clear, same) =
        release_all-is_blocked k x st reason actor key request_id s id
          (require_resolved-length hs s p4)
          (ap (λ r. (r, (release_all x st hs reason actor key request_id s).1)) p6) in
      let end : t ≡ (release_all x st hs reason actor key request_id s).1 =
        ap (λ r. r.1) (sym q6) in
      let now_clear : is_blocked k t.holds ≡ false = rw end clear in
      let found : find_shipment k t.shipments ≡ some x = rw (end, same) f in
      (now_clear, (x, f, ground arith))
