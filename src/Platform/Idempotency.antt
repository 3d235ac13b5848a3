-- ===== src/Platform/Idempotency.antt =====
-- backend/src/yitu/platform/idempotency.py: a request with a key is run once, and its response is
-- given again. The advisory lock orders the requests with one key, so that they run one after
-- another. `canonical_json_sha256` is no part of the model: a hash is a number.
pub mod Replay
use yitu.Base.{ℕ, Bool, ◌&&◌, not, Option, none, some, List, [], ◌∷◌, ◌++◌, find_first, ◌==◌, true}
use yitu.Platform.Errors.{runtime_error, idempotency_key_reused}
use yitu.Platform.Json.{Key, key_eq}
use yitu.Store.Rows.{IdempotencyRecord, IdempotencyResponse}
use yitu.Store.Session.{Action, modify, gets, or_raise, raise_if, pure, ◌>>=◌, ◌>>◌}

unfoldable pub find_record : Key → Key → List IdempotencyRecord → Option IdempotencyRecord
find_record scope key = find_first (λ r. key_eq r.record_scope scope && key_eq r.record_key key)

abbrev pub keep_response : Key → Key → ℕ → IdempotencyResponse → Action (Unit {0})
keep_response scope key request_hash response = modify λ s. record s {
  idempotency =
      s.idempotency
      ++ record {
        record_scope = scope;
        record_key = key;
        record_hash = request_hash;
        record_completed = true;
        record_response = some response;
      }
        ∷ [];
}

unfoldable pub execute : Key → Key → ℕ → Action IdempotencyResponse → Action IdempotencyResponse
execute scope key request_hash operation = do
  existing ← gets (λ s. find_record scope key s.idempotency)
  elim existing [
    | some r ↦ do
      raise_if (not r.record_completed) runtime_error
      raise_if (not (r.record_hash == request_hash)) idempotency_key_reused
      or_raise r.record_response runtime_error
    | none ↦ do response ← operation; keep_response scope key request_hash response; pure response
  ]
