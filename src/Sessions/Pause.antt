-- ===== src/Sessions/Pause.antt =====
-- backend/src/application/use_cases/sessions/pause.py and resume.py.
use superion.Prelude.{ℕ, String, Option, none, [], ◌∷◌}
use superion.Effect.{Exec, pure, lift, ◌>>=◌, ◌>>◌}
use superion.Value.{Value}
use superion.Domain.User.{User}
use superion.Domain.Session
use superion.World.{World}
use superion.World.Bus.{EventBus}
use superion.Events.Append.{emit_system_event, require_session}
use superion.Sessions.Repository.{save}

module _ (bus : EventBus) where
  -- `PauseSessionUseCase.execute`
  unfoldable pub pause : String → User → String → Option String → Exec World ℕ
  pause session_id current_user reason event_id = do
    session ← require_session session_id current_user
    updated ← lift (Session.pause session)
    save updated
    paused ←
        emit_system_event bus session_id "session.paused" updated.current_step_index
          (("reason", Value.text reason) ∷ []) event_id
    _ ←
        emit_system_event bus session_id "step.paused" updated.current_step_index
          (("index", Value.num updated.current_step_index) ∷ ("reason", Value.text reason) ∷ [])
          none
    pure paused.seq

  -- `ResumeSessionUseCase.execute`
  unfoldable pub resume : String → User → String → Option String → Exec World ℕ
  resume session_id current_user reason event_id = do
    session ← require_session session_id current_user
    updated ← lift (Session.resume session)
    save updated
    resumed ←
        emit_system_event bus session_id "session.resumed" updated.current_step_index
          (("reason", Value.text reason) ∷ []) event_id
    pure resumed.seq
