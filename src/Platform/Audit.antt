-- ===== src/Platform/Audit.antt =====
-- backend/src/yitu/platform/audit.py: `AuditService` only appends.
use yitu.Base.{Option, [], ◌∷◌, ◌++◌}
use yitu.Platform.Json.{Key, Object}
use yitu.Store.Rows.{AuditEntry}
use yitu.Store.Session.{Action, new_id, modify, gets, pure, ◌>>=◌, ◌>>◌}

unfoldable pub audit_record :
    Key → Key → Key → Option Object → Option Object → Option Key → Key → Action AuditEntry
audit_record actor action resource before_summary after_summary reason request_id = do
  entry_id ← new_id
  created_at ← gets (λ s. s.now)
  let entry : AuditEntry = record {
    entry_id = entry_id;
    entry_actor = actor;
    entry_action = action;
    entry_resource = resource;
    before_summary = before_summary;
    after_summary = after_summary;
    entry_reason = reason;
    entry_request = request_id;
    entry_created_at = created_at;
  }
  modify (λ s. record s { audit = s.audit ++ entry ∷ [] })
  pure entry
