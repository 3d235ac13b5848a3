-- ===== src/Platform/Outbox.antt =====
-- backend/src/yitu/platform/outbox.py, `OutboxService.append`: an event is added in the caller's
-- transaction.
use Prim.Native.String.{String}
use yitu.Base.{ℕ, none, [], ◌∷◌, ◌++◌}
use yitu.Platform.Json.{Key, Object}
use yitu.Store.Rows.{pending}
use yitu.Store.Session.{Action, new_id, modify, pure, ◌>>=◌, ◌>>◌}

unfoldable pub append : String → Key → Object → Key → Action ℕ
append event_type business_id payload idempotency_key = do
  event_id ← new_id
  modify (λ s. record s {
    outbox =
        s.outbox
        ++ record {
          outbox_id = event_id;
          outbox_type = event_type;
          business_id = business_id;
          payload = payload;
          outbox_key = idempotency_key;
          outbox_status = pending;
          attempts = 0;
          next_attempt_at = s.now;
          outbox_created_at = s.now;
          processed_at = none;
          last_error = none;
        }
          ∷ [];
  })
  pure event_id
