-- ===== src/Platform/Consumer/Failure.antt =====
-- What a failed handling leaves (backend/src/yitu/platform/outbox.py).
use yitu.Base.{
  ℕ, zero, suc, ◌+◌, ◌-◌, ◌*◌, ◌^◌, ◌≤◌, ◌<◌, ◌≡◌, refl, sym, ◌∙◌, some, List, [], ◌∷◌, ◌++◌, ltb,
  arith, Bool-cases, inl, inr, ◌⊎◌,
}
use yitu.Base.Table.{by_key-put_row_self, by_key_found}
use yitu.Platform.Consumer.{
  consume_once, consume_by_status, handle_event, settle, record_failure, next_attempt,
  delay_seconds, retried, buried, second,
}
use yitu.Platform.Errors.{Error, err}
use yitu.Platform.Json.{Key, Object}
use yitu.Store.Queries.{find_outbox, put_outbox}
use yitu.Store.Rows.{OutboxEvent, pending, published, dead}
use yitu.Store.Session.{Session, Action, transact}

put_outbox-found :
    (k : ℕ) (r : OutboxEvent) (rows : List OutboxEvent) {x : OutboxEvent}
    → find_outbox k rows ≡ some x
    → r.outbox_id ≡ x.outbox_id
    → find_outbox k (put_outbox r rows) ≡ some r
unfolding find_outbox put_outbox
put_outbox-found k r rows {x} f p =
    let id : r.outbox_id ≡ k = p ∙ by_key_found (λ (y : OutboxEvent). y.outbox_id) k rows f in
    rw (sym id) (by_key-put_row_self (λ (y : OutboxEvent). y.outbox_id) r rows (rw (id, f) refl))

power_pos : (n : ℕ) → 1 ≤ 2 ^ n
power_pos zero = omega arith
power_pos (suc n) = omega (arith, power_pos n)

delay-bounds : (n : ℕ) → (30 ≤ delay_seconds n) × (delay_seconds n ≤ 1800)
unfolding delay_seconds
delay-bounds n = (omega (arith, power_pos (n - 1)), omega arith)

attempt-bounds :
    (n now jitter : ℕ)
    → jitter ≤ 1000
    → (now + 30 * second ≤ next_attempt n now jitter)
      × (next_attempt n now jitter ≤ now + 1980 * second)
unfolding next_attempt
attempt-bounds n now jitter j = let (a, b) = delay-bounds n in (grind arith, grind arith)

module _ (error_text : Error → Key) (handler : Object → Key → Action (Unit {0})) (k jitter : ℕ)
    (s : Session) {event : OutboxEvent} {e : Error} {t : Session} where
  failure-runs :
      find_outbox k s.outbox ≡ some event
      → event.outbox_status ≡ published
      → handler event.payload event.outbox_key s ≡ (err e, t)
      → (consume_once error_text handler k jitter s).1
        ≡ (record_failure event (error_text e) jitter s).1
  unfolding consume_once consume_by_status handle_event settle transact
  failure-runs f p h = ground (arith, h, f, p)

  -- A published event whose handler raises is counted as one more failure, and whatever the
  -- handler wrote, no table but the outbox and the dead letters changes. Below five failures the
  -- event is pending again, for 30 seconds at least and 33 minutes at most; with the fifth it is
  -- dead, and one letter more is kept, with what the event holds.
  pub failure_counted :
      find_outbox k s.outbox ≡ some event
      → event.outbox_status ≡ published
      → handler event.payload event.outbox_key s ≡ (err e, t)
      → jitter ≤ 1000
      → let u = (consume_once error_text handler k jitter s).1 in
        (u ≡ record s { next_id = u.next_id; outbox = u.outbox; dead_letters = u.dead_letters })
        × (((event.attempts + 1 < 5)
              × (u.dead_letters ≡ s.dead_letters)
              × ((next : ℕ) × (s.now + 30 * second ≤ next)
                  × (next ≤ s.now + 1980 * second)
                  × (find_outbox k u.outbox
                      ≡ some (record event {
                        outbox_status = pending;
                        attempts = event.attempts + 1;
                        next_attempt_at = next;
                        last_error = some (error_text e);
                      }))))
            ⊎ ((5 ≤ event.attempts + 1)
                × (find_outbox k u.outbox
                    ≡ some (record event {
                      outbox_status = dead;
                      attempts = event.attempts + 1;
                      last_error = some (error_text e);
                    }))
                × ((letter : ℕ) × (u.dead_letters
                      ≡ s.dead_letters
                        ++ record {
                          letter_id = letter;
                          letter_event = event.outbox_id;
                          letter_type = event.outbox_type;
                          letter_business = event.business_id;
                          letter_payload = event.payload;
                          letter_key = event.outbox_key;
                          letter_attempts = event.attempts + 1;
                          letter_error = error_text e;
                          failed_at = s.now;
                        }
                          ∷ []))))
  unfolding record_failure
  failure_counted f p h j =
      let q = failure-runs f p h in
      let again = put_outbox-found k (retried event (error_text e) s.now jitter) s.outbox f refl in
      let gone = put_outbox-found k (buried event (error_text e)) s.outbox f refl in
      let (lo, hi) = attempt-bounds (event.attempts + 1) s.now jitter j in
      elim (Bool-cases (ltb (event.attempts + 1) 5)) [
        | inl c ↦ (
          rw q (ground arith),
          inl (
            ground arith,
            rw q (ground arith),
            (next_attempt (event.attempts + 1) s.now jitter, lo, hi, rw q (ground (arith, again))),
          ),
        )
        | inr c ↦ (
          rw q (ground arith),
          inr (ground arith, rw q (ground (arith, gone)), (s.next_id, rw q (ground arith))),
        )
      ]
