-- ===== src/Dispatch/Accept.antt =====
-- A task has one courier (backend/src/yitu/dispatch/service.py).
use yitu.Base.{ℕ, ◌≡◌, refl, false, some, inl, inr, ap, sym, ◌∙◌, List, arith, Option-cases}
use yitu.Base.Table.{by_key-put_row_self, by_key_found}
use yitu.Blocked.{IsRefused}
use yitu.Dispatch.{accept_task, get_task, claim_task, accept_target, accept_action}
use yitu.Platform.Errors.{ok}
use yitu.Platform.Json.{Key}
use yitu.Shipments.Control.{lock_and_assert_fulfillment_allowed, lock_shipment, is_blocked}
use yitu.Shipments.Enums.{courier}
use yitu.Shipments.Transition.Frame.{transition-MovesOnly}
use yitu.Shipments.Transition.{transition}
use yitu.Store.Queries.{find_task, put_task, find_shipment}
use yitu.Store.Rows.{CurrentUser, Shipment, CourierTask, accepted}
use yitu.Store.Session.{Session}

put_task-found :
    (k : ℕ) (c : CourierTask) (rows : List CourierTask) {t : CourierTask}
    → find_task k rows ≡ some t
    → c.task_id ≡ t.task_id
    → find_task k (put_task c rows) ≡ some c
unfolding find_task put_task
put_task-found k c rows {t} f p =
    let q : t.task_id ≡ k = by_key_found (λ (r : CourierTask). r.task_id) k rows f in
    let id : c.task_id ≡ k = p ∙ q in
    rw (sym id) (by_key-put_row_self (λ (r : CourierTask). r.task_id) c rows (rw (id, f) refl))

-- The row that a courier has taken.
abbrev taken : CourierTask → CurrentUser → CourierTask
taken row actor = record row { task_status = accepted; assignee_id = some actor.user_id }

abbrev with_taken : CourierTask → CurrentUser → Session → Session
with_taken row actor s = record s { tasks = put_task (taken row actor) s.tasks }

module _ (task_id : ℕ) (actor : CurrentUser) (request_id : Key) (s : Session) {c : CourierTask}
    {t : Session} {row : CourierTask} where
  accept_guards :
      find_task task_id s.tasks ≡ some row
      → accept_task task_id actor request_id s ≡ (ok c, t)
      → (actor.role ≡ courier)
        × (actor.user_station ≡ some row.station_id)
        × (is_blocked row.task_shipment s.holds ≡ false)
  unfolding accept_task get_task lock_and_assert_fulfillment_allowed lock_shipment
  accept_guards f h = (ground arith, ground arith, ground arith)

  accept_taken :
      find_task task_id s.tasks ≡ some row
      → accept_task task_id actor request_id s ≡ (ok c, t)
      → c ≡ taken row actor
  unfolding accept_task get_task claim_task lock_and_assert_fulfillment_allowed lock_shipment
  accept_taken f h = ground arith

  accept_moves :
      {r : Shipment}
      → find_task task_id s.tasks ≡ some row
      → find_shipment row.task_shipment s.shipments ≡ some r
      → accept_task task_id actor request_id s ≡ (ok c, t)
      → t
        ≡ (transition r
            (accept_target row.task_type)
            actor
            (accept_action row.task_type)
            request_id
            (with_taken row actor s)).1
  unfolding accept_task get_task claim_task lock_and_assert_fulfillment_allowed lock_shipment
  accept_moves f n h = ground arith

module _ (task_id : ℕ) (actor : CurrentUser) (request_id : Key) (s : Session) where
  accept_rows :
      {c : CourierTask} {t : Session}
      → accept_task task_id actor request_id s ≡ (ok c, t)
      → (row : CourierTask) × (r : Shipment) × (find_task task_id s.tasks ≡ some row)
        × (find_shipment row.task_shipment s.shipments ≡ some r)
  unfolding accept_task get_task claim_task lock_and_assert_fulfillment_allowed lock_shipment
  accept_rows {c} {t} h = elim (Option-cases (find_task task_id s.tasks)) [
    | inl f ↦ absurd (ground arith)
    | inr (row, f) ↦ elim (Option-cases (find_shipment row.task_shipment s.shipments)) [
      | inl n ↦ absurd (ground arith)
      | inr (r, n) ↦ (row, r, f, n)
    ]
  ]

  accept_found :
      {c : CourierTask} {t : Session}
      → accept_task task_id actor request_id s ≡ (ok c, t)
      → find_task task_id t.tasks ≡ some c
  accept_found {c} {t} h =
      let (row, r, f, n) = accept_rows h in
      let m =
        transition-MovesOnly r (accept_target row.task_type) actor (accept_action row.task_type)
          request_id (with_taken row actor s) in
      let p = accept_moves task_id actor request_id s f n h in
      let tasks : t.tasks ≡ put_task (taken row actor) s.tasks =
        ap (λ (x : Session). x.tasks) (p ∙ m) in
      rw (tasks, accept_taken task_id actor request_id s f h)
        (put_task-found task_id (taken row actor) s.tasks f refl)

  -- The task that an accepting courier gets is one of its station, whose shipment has no active
  -- hold; afterwards the row of the task is the one returned, accepted by that courier.
  pub accept_task-accepted :
      {c : CourierTask} {t : Session}
      → accept_task task_id actor request_id s ≡ (ok c, t)
      → (find_task task_id t.tasks ≡ some c)
        × (c.task_status ≡ accepted)
        × (c.assignee_id ≡ some actor.user_id)
        × (actor.role ≡ courier)
        × (actor.user_station ≡ some c.station_id)
        × (is_blocked c.task_shipment s.holds ≡ false)
  accept_task-accepted {c} {t} h =
      let (row, r, f, n) = accept_rows h in
      let e = accept_taken task_id actor request_id s f h in
      let (a, b, d) = accept_guards task_id actor request_id s f h in
      (accept_found h, rw e refl, rw e refl, a, rw e b, rw e d)

  -- Once a courier has accepted a task, no one accepts it after, under whatever request: the call
  -- raises and writes nothing.
  pub accept_once :
      {c : CourierTask} {t : Session} (other : CurrentUser) (other_request : Key)
      → accept_task task_id actor request_id s ≡ (ok c, t)
      → IsRefused (accept_task task_id other other_request) t
  unfolding accept_task get_task claim_task lock_and_assert_fulfillment_allowed lock_shipment
  accept_once {c} {t} other other_request h =
      let (found, status, _, _, _, _) = accept_task-accepted h in ground arith
