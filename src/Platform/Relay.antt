-- ===== src/Platform/Relay.antt =====
-- backend/src/yitu/platform/outbox.py, `relay_pending_events`: the events that are due go to the
-- broker, in order, in one transaction. The row locks are the order of the requests, and the broker
-- is a parameter.
use yitu.Base.{
  ℕ, ◌+◌, Bool, true, false, ◌&&◌, ◌||◌, none, some, List, [], ◌∷◌, select, ltb, leb, ◌==◌,
}
use yitu.Base.Sorting.{sort_by, limit_to}
use yitu.Store.Queries.{find_outbox, put_outbox}
use yitu.Store.Rows.{OutboxEvent, OutboxStatus, pending, published, outbox_completed, dead}
use yitu.Store.Session.{Action, modify, gets, transact, pure, ◌>>=◌, ◌>>◌}

abbrev is_pending : OutboxStatus → Bool
is_pending pending = true
is_pending published = false
is_pending outbox_completed = false
is_pending dead = false

-- `status = 'pending' AND next_attempt_at <= :now`
abbrev pub is_waiting : ℕ → OutboxEvent → Bool
is_waiting now e = is_pending e.outbox_status && leb e.next_attempt_at now

-- `ORDER BY next_attempt_at, created_at`
abbrev pub due_before : OutboxEvent → OutboxEvent → Bool
due_before x y =
    ltb x.next_attempt_at y.next_attempt_at
    || ((x.next_attempt_at == y.next_attempt_at) && leb x.outbox_created_at y.outbox_created_at)

unfoldable pub waiting_events : ℕ → ℕ → List OutboxEvent → List OutboxEvent
waiting_events most now rows = limit_to most (sort_by due_before (select (is_waiting now) rows))

-- `UPDATE outbox_events SET status = 'published' WHERE id = :event_id`
unfoldable pub mark_published : ℕ → List OutboxEvent → List OutboxEvent
mark_published event_id rows = elim (find_outbox event_id rows) [
  | none ↦ rows
  | some e ↦ put_outbox (record e { outbox_status = published }) rows
]

module _ (publish : ℕ → Action (Unit {0})) where
  -- The loop, which counts what it has published.
  unfoldable pub relay_all : List OutboxEvent → Action ℕ
  relay_all [] = pure 0
  relay_all (e ∷ es) = do
    publish e.outbox_id
    modify (λ s. record s { outbox = mark_published e.outbox_id s.outbox })
    count ← relay_all es
    pure (count + 1)

  unfoldable pub relay_pending_events : ℕ → Action ℕ
  relay_pending_events most =
      transact do events ← gets (λ s. waiting_events most s.now s.outbox); relay_all events
