-- ===== src/Audit/Log.antt =====
-- backend/src/application/use_cases/audit/log.py and the wrapper of
-- backend/src/application/decorators/audit.py.
use superion.Prelude.{String, none, some, string_eq}
use superion.Effect.{Exec, pure, lift, gets, modify, ◌>>=◌, ◌>>◌}
use superion.Value.{Payload}
use superion.World.{World, uuid4, now}
use superion.Audit.{AuditAction, AuditEntry, make_entry, append, get_by_id}

-- `LogAuditEntryUseCase.execute` with the id that the decorator leaves out
unfoldable pub log_entry : String → AuditAction → String → String → Payload → Exec World AuditEntry
log_entry actor_user_id action target_type target_id payload = do
  id ← uuid4
  existing ← gets (λ w. get_by_id w.audit_log id)
  elim existing [
    | some e ↦ pure e
    | none ↦ (do
      created_at ← now
      entry ← lift (
          make_entry (record {
            id = id;
            actor_user_id = actor_user_id;
            action = action;
            target_type = target_type;
            target_id = target_id;
            payload = payload;
            created_at = created_at;
          }))
      modify (λ w. record w { audit_log = append w.audit_log entry })
      pure entry)
  ]

-- `@audit(action, target_type=...)`: an entry behind a call that returned. `actor`, `target` and
-- `payload` are what `_extract_audit_fields` takes from the call and its result.
unfoldable pub audited :
    {A : Type 0}
    → AuditAction
    → String
    → (A → String)
    → (A → String)
    → (A → Payload)
    → Exec World A
    → Exec World A
audited action target_type actor target payload m = do
  result ← m
  _ ← log_entry (actor result) action target_type (target result) (payload result)
  pure result
