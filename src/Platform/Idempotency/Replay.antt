-- ===== src/Platform/Idempotency/Replay.antt =====
-- What a repeated request gives (backend/src/yitu/platform/idempotency.py).
use yitu.Base.{
  ℕ, ◌≡◌, refl, ◌≢◌, ◌++◌, List, [], ◌∷◌, none, some, inl, inr, true, arith, Option-cases,
}
use yitu.Platform.Errors.{ok, err, idempotency_key_reused}
use yitu.Platform.Idempotency.{execute, find_record}
use yitu.Platform.Json.{Key, key_eq_refl}
use yitu.Store.Rows.{IdempotencyRecord, IdempotencyResponse}
use yitu.Store.Session.{Session, Action}

find_record-append :
    (scope key : Key) (r : IdempotencyRecord) (rs : List IdempotencyRecord)
    → r.record_scope ≡ scope
    → r.record_key ≡ key
    → find_record scope key rs ≡ none
    → find_record scope key (rs ++ r ∷ []) ≡ some r
unfolding find_record
find_record-append scope key r [] p q h = ground (arith, key_eq_refl scope, key_eq_refl key)
find_record-append scope key r (x ∷ rs) p q h =
    ground (arith, find_record-append scope key r rs p q)

module _ (scope key : Key) (request_hash : ℕ) (operation : Action IdempotencyResponse)
    (s : Session) where
  -- The record under which the response is found again.
  kept : IdempotencyResponse → IdempotencyRecord
  kept r = record {
    record_scope = scope;
    record_key = key;
    record_hash = request_hash;
    record_completed = true;
    record_response = some r;
  }

  execute-found :
      {r : IdempotencyResponse} {t : Session}
      → (operation s).1.idempotency ≡ s.idempotency
      → execute scope key request_hash operation s ≡ (ok r, t)
      → (x : IdempotencyRecord) × (find_record scope key t.idempotency ≡ some x)
        × (x.record_completed ≡ true)
        × (x.record_hash ≡ request_hash)
        × (x.record_response ≡ some r)
  unfolding execute kept
  execute-found {r} {t} k h = elim (Option-cases (find_record scope key s.idempotency)) [
    | inr (x, f) ↦ (x, ground (arith, f), ground (arith, f), ground (arith, f), ground (arith, f))
    | inl f ↦ (
      kept r,
      ground (arith, f, find_record-append scope key (kept r) s.idempotency),
      refl,
      refl,
      refl,
    )
  ]

  -- A request that returned, by an operation that leaves the kept responses alone, gives the same
  -- response again under its scope, key and hash, whatever operation it would run, and writes
  -- nothing more.
  pub execute_replay :
      (again : Action IdempotencyResponse) {r : IdempotencyResponse} {t : Session}
      → (operation s).1.idempotency ≡ s.idempotency
      → execute scope key request_hash operation s ≡ (ok r, t)
      → execute scope key request_hash again t ≡ (ok r, t)
  unfolding execute
  execute_replay again {r} {t} k h =
      let (x, f, c, e, a) = execute-found {r = r} {t = t} k h in ground arith

  -- Once a request has returned, its key is refused for a request with another hash, which writes
  -- nothing.
  pub execute_reused :
      (again : Action IdempotencyResponse) (other_hash : ℕ) {r : IdempotencyResponse} {t : Session}
      → (operation s).1.idempotency ≡ s.idempotency
      → other_hash ≢ request_hash
      → execute scope key request_hash operation s ≡ (ok r, t)
      → execute scope key other_hash again t ≡ (err idempotency_key_reused, t)
  unfolding execute
  execute_reused again other_hash {r} {t} k n h =
      let (x, f, c, e, a) = execute-found {r = r} {t = t} k h in ground arith
