-- ===== src/Domain/Session.antt =====
-- backend/src/domain/entities/maintenance_session.py and the `SessionStatus` of
-- value_objects/status.py. A datetime is a number of microseconds. `current_step_index` is a
-- natural number, so the guard of `__post_init__` holds by its type.
use superion.Prelude.{ℕ, String, Bool, true, false, Option, some}
use superion.Effect.{conflict, Error, domain_error, Result, ok, err}

pub data SessionStatus : Type 0 where
  active paused finalized aborted : SessionStatus

pub record Session : Type 0 where
  pub id : String
  pub work_order_id : String
  pub technician_id : String
  pub status : SessionStatus
  pub started_at : ℕ
  pub current_step_index : ℕ
  pub langgraph_thread_id : String
  pub ended_at : Option ℕ

abbrev pub is_active_status : SessionStatus → Bool
is_active_status SessionStatus.active = true
is_active_status SessionStatus.paused = true
is_active_status SessionStatus.finalized = false
is_active_status SessionStatus.aborted = false

-- `status.value == "finalized"`
abbrev pub is_finalized : SessionStatus → Bool
is_finalized SessionStatus.finalized = true
is_finalized SessionStatus.active = false
is_finalized SessionStatus.paused = false
is_finalized SessionStatus.aborted = false

-- `MaintenanceSession.is_active`
abbrev pub is_active : Session → Bool
is_active s = is_active_status s.status

abbrev pub already_finalized : Error
already_finalized = domain_error conflict "SESSION_ALREADY_FINALIZED"

abbrev wrong_status : Error
wrong_status = domain_error conflict "VALIDATION_ERROR"

pause_from : SessionStatus → Session → Result Session
pause_from SessionStatus.finalized s = err already_finalized
pause_from SessionStatus.active s = ok (record s { status = SessionStatus.paused })
pause_from SessionStatus.paused s = err wrong_status
pause_from SessionStatus.aborted s = err wrong_status

unfoldable pub pause : Session → Result Session
unfolding pause_from
pause s = pause_from s.status s

resume_from : SessionStatus → Session → Result Session
resume_from SessionStatus.finalized s = err already_finalized
resume_from SessionStatus.paused s = ok (record s { status = SessionStatus.active })
resume_from SessionStatus.active s = err wrong_status
resume_from SessionStatus.aborted s = err wrong_status

unfoldable pub resume : Session → Result Session
unfolding resume_from
resume s = resume_from s.status s

finalize_from : SessionStatus → Session → ℕ → Result Session
finalize_from SessionStatus.finalized s ended_at = err already_finalized
finalize_from _ s ended_at =
    ok (record s { status = SessionStatus.finalized; ended_at = some ended_at })

unfoldable pub finalize : Session → ℕ → Result Session
unfolding finalize_from
finalize s ended_at = finalize_from s.status s ended_at
