-- ===== src/Exceptions/Opening/Holds.antt =====
-- Whether a reported case blocks its shipment (backend/src/yitu/exceptions/service.py).
use yitu.Base.{
  ℕ, ◌+◌, ◌≡◌, Bool, true, false, ◌&&◌, ◌||◌, none, some, List, [], ◌∷◌, ◌++◌, ◌==◌, arith,
}
use yitu.Exceptions.Opening.{
  open_operation, write_case, hold_if_blocking, assert_manual_report_allowed, opened_case,
}
use yitu.Exceptions.StateMachine.{ExceptionType, default_policy}
use yitu.Platform.Errors.{ok}
use yitu.Platform.Json.{Key, lit, ident, ◌⊹◌, Object}
use yitu.Platform.Audit.{audit_record}
use yitu.Platform.Outbox.{append}
use yitu.Shipments.Control.{lock_shipment, is_blocked, find_source, place_exception_hold}
use yitu.Store.Cases.{ExceptionCase}
use yitu.Store.Queries.{find_shipment, find_shipment-id}
use yitu.Store.Rows.{CurrentUser, Shipment, ShipmentHold, IdempotencyResponse}
use yitu.Store.Steps.{Returned, bind-Returned, or_raise-Returned}
use yitu.Store.Session.{Session}

is_blocked-snoc :
    (j : ℕ) (h : ShipmentHold) (hs : List ShipmentHold)
    → h.active ≡ true
    → is_blocked j (hs ++ h ∷ []) ≡ (is_blocked j hs || (h.hold_shipment == j))
unfolding is_blocked
is_blocked-snoc j h [] a = ground arith
is_blocked-snoc j h (x ∷ hs) a = ground (arith, is_blocked-snoc j h hs a)

-- The hold that a case places on a shipment.
abbrev the_hold : ExceptionCase → Shipment → CurrentUser → Session → ShipmentHold
the_hold row x actor s = record {
  hold_id = s.next_id;
  hold_shipment = x.id;
  source_type = "EXCEPTION_CASE";
  source_id = row.case_id;
  frozen_status = x.status;
  reason = row.description;
  active = true;
  placed_by = actor.user_id;
  placed_at = s.now;
  released_by = none;
  released_at = none;
  place_idempotency_key = lit "hold:" ⊹ ident row.case_id ⊹ lit ":open";
  release_idempotency_key = none;
}

hold_if_blocking-is_blocked :
    (j : ℕ) (b : Bool) (row : ExceptionCase) (actor : CurrentUser) (s : Session) {x : Shipment}
    → find_shipment row.case_shipment s.shipments ≡ some x
    → find_source "EXCEPTION_CASE" row.case_id s.holds ≡ none
    → is_blocked j (hold_if_blocking b row actor s).1.holds
      ≡ (is_blocked j s.holds || (b && (row.case_shipment == j)))
unfolding hold_if_blocking place_exception_hold lock_shipment
hold_if_blocking-is_blocked j false row actor s {x} f n = ground arith
hold_if_blocking-is_blocked j true row actor s {x} f n = ground (
  arith,
  find_shipment-id row.case_shipment s.shipments f,
  is_blocked-snoc j (the_hold row x actor s) s.holds,
)

assert-same :
    (case_type : ExceptionType) (x : Shipment) (actor : CurrentUser) (s : Session)
    → (assert_manual_report_allowed case_type x actor s).1 ≡ s
unfolding assert_manual_report_allowed
assert-same case_type x actor s = ground arith

module _ (k : ℕ) (case_type : ExceptionType) (description : Key) (evidence : Object)
    (actor : CurrentUser) (key request_id : Key) (s : Session) where
  write_case-is_blocked :
      (x : Shipment) (j : ℕ) {y : Shipment} {r : IdempotencyResponse} {t : Session}
      → find_shipment x.id s.shipments ≡ some y
      → find_source "EXCEPTION_CASE" s.next_id s.holds ≡ none
      → Returned (write_case x case_type description evidence actor key request_id) s r t
      → is_blocked j t.holds
        ≡ (is_blocked j s.holds || ((default_policy case_type).blocks_fulfillment && (x.id == j)))
  unfolding write_case append audit_record
  write_case-is_blocked x j {y} {r} {t} f n e =
      let row = opened_case s.next_id x case_type description evidence actor key request_id s.now in
      let opened = record s { next_id = s.next_id + 1; cases = s.cases ++ row ∷ [] } in
      let (u, p, q) = bind-Returned (hold_if_blocking row.case_blocks row actor) _ opened e in
      ground (arith, q, hold_if_blocking-is_blocked j row.case_blocks row actor opened {x = y})

  -- Once a report returns, each shipment is blocked exactly when it was before, or when it is the
  -- one of the report and the case's type blocks; no hold has the id of the new case before.
  pub open_operation-is_blocked :
      (j : ℕ) {r : IdempotencyResponse} {t : Session}
      → find_source "EXCEPTION_CASE" s.next_id s.holds ≡ none
      → open_operation k case_type description evidence actor key request_id s ≡ (ok r, t)
      → is_blocked j t.holds
        ≡ (is_blocked j s.holds || ((default_policy case_type).blocks_fulfillment && (k == j)))
  unfolding open_operation lock_shipment
  open_operation-is_blocked j {r} {t} n e =
      let (x, p, q) = bind-Returned (lock_shipment k) _ s e in
      let (u, a, w) = bind-Returned (assert_manual_report_allowed case_type x actor) _ _ q in
      let f : find_shipment k s.shipments ≡ some x = or_raise-Returned _ _ s p in
      let i : x.id ≡ k = find_shipment-id k s.shipments f in
      ground (
        arith,
        i,
        write_case-is_blocked x j {y = x} {r = r} {t = t},
        assert-same case_type x actor s,
        w,
      )
