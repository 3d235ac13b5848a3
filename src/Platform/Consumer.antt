-- ===== src/Platform/Consumer.antt =====
-- backend/src/yitu/platform/outbox.py, `RetryPolicy`, `consume_once` and `_record_failure`: an event
-- is handled in a savepoint, and a failure is counted. A moment is in microseconds here, and the
-- jitter in thousandths: `random.random()` stays within the range that `next_attempt` asks for, so
-- that its `ValueError` is left out. The text of an exception is a parameter.
pub mod Failure
use yitu.Base.{
  ℕ, ◌+◌, ◌-◌, ◌*◌, ◌^◌, min, Bool, true, false, Option, none, some, [], ◌∷◌, ◌++◌, ltb,
  if◌then◌else◌,
}
use yitu.Platform.Errors.{Error, Result, ok, err, lookup_error, runtime_error}
use yitu.Platform.Json.{Key, Object}
use yitu.Store.Queries.{find_outbox, put_outbox}
use yitu.Store.Rows.{
  OutboxEvent, OutboxStatus, pending, published, outbox_completed, dead, DeadLetter,
}
use yitu.Store.Session.{Action, new_id, modify, gets, raise, or_raise, transact, pure, ◌>>=◌, ◌>>◌}

abbrev pub second : ℕ
second = 1_000_000

-- `min(30 * (2 ** (attempts - 1)), 30 * 60)`
unfoldable pub delay_seconds : ℕ → ℕ
delay_seconds attempts = min (30 * 2 ^ (attempts - 1)) 1800

-- The delay, longer by up to a tenth.
unfoldable pub next_attempt : ℕ → ℕ → ℕ → ℕ
next_attempt attempts now jitter = now + delay_seconds attempts * (second + 100 * jitter)

abbrev pub save_event : OutboxEvent → Action (Unit {0})
save_event row = modify (λ s. record s { outbox = put_outbox row s.outbox })

abbrev pub retried : OutboxEvent → Key → ℕ → ℕ → OutboxEvent
retried event error now jitter = record event {
  outbox_status = pending;
  attempts = event.attempts + 1;
  next_attempt_at = next_attempt (event.attempts + 1) now jitter;
  last_error = some error;
}

abbrev pub buried : OutboxEvent → Key → OutboxEvent
buried event error = record event {
  outbox_status = dead;
  attempts = event.attempts + 1;
  last_error = some error;
}

-- The row of `dead_letters`; the suggested action is one text.
abbrev pub letter_of : OutboxEvent → Key → ℕ → ℕ → DeadLetter
letter_of event error letter_id now = record {
  letter_id = letter_id;
  letter_event = event.outbox_id;
  letter_type = event.outbox_type;
  letter_business = event.business_id;
  letter_payload = event.payload;
  letter_key = event.outbox_key;
  letter_attempts = event.attempts + 1;
  letter_error = error;
  failed_at = now;
}

-- `_record_failure`
unfoldable pub record_failure : OutboxEvent → Key → ℕ → Action (Unit {0})
record_failure event error jitter = do
  now ← gets (λ s. s.now)
  elim (ltb (event.attempts + 1) 5) [
    | true ↦ save_event (retried event error now jitter)
    | false ↦ do
      save_event (buried event error)
      letter_id ← new_id
      modify (λ s. record s {
        dead_letters = s.dead_letters ++ letter_of event error letter_id now ∷ [];
      })
  ]

module _ (error_text : Error → Key) (handler : Object → Key → Action (Unit {0})) where
  -- The savepoint around the handler, and what follows it.
  unfoldable pub settle : OutboxEvent → ℕ → Result (Unit {0}) → Action Bool
  settle event jitter (err e) = do record_failure event (error_text e) jitter; pure false
  settle event jitter (ok tt) = do
    now ← gets (λ s. s.now)
    save_event (record event { outbox_status = outbox_completed; processed_at = some now })
    pure true

  unfoldable pub handle_event : OutboxEvent → ℕ → Action Bool
  handle_event event jitter s =
      let (r, t) = transact (handler event.payload event.outbox_key) s in settle event jitter r t

  unfoldable pub consume_by_status : OutboxStatus → OutboxEvent → ℕ → Action Bool
  consume_by_status outbox_completed event jitter = pure false
  consume_by_status dead event jitter = pure false
  consume_by_status published event jitter = handle_event event jitter
  consume_by_status pending event jitter = raise runtime_error

  unfoldable pub consume_once : ℕ → ℕ → Action Bool
  consume_once event_id jitter = do
    event ← or_raise (← gets (λ s. find_outbox event_id s.outbox)) lookup_error
    consume_by_status event.outbox_status event jitter
