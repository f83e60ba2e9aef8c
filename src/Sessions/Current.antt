-- ===== src/Sessions/Current.antt =====
-- `get_current_step` of backend/src/application/use_cases/sessions/transition_step.py. `digits` prints
-- a number.
use superion.Prelude.{
  ℕ, ◌+◌, ◌-◌, String, Bool, true, false, List, [], ◌∷◌, ◌++◌, nat_eq, ◌==◌, ltb, length, get_elem?,
  not, if◌then◌else◌,
}
use superion.Effect.{index_error, Exec, pure, or_raise, ◌>>=◌}
use superion.Value.{Value, Payload}
use superion.Domain.User.{User}
use superion.Domain.Template.{Step}
use superion.World.{World}
use superion.Sessions.Transition.{load_session_context, step_payload}
use Prim.Native.String.{◌++◌ as ◌<>◌}

-- The result for a procedure without steps
abbrev no_steps : ℕ → Payload
no_steps step_index =
    ("index", Value.num 0)
    ∷ ("title", Value.text "")
    ∷ ("description", Value.text "")
    ∷ ("estimated_minutes", Value.num 0)
    ∷ ("critical", Value.bool false)
    ∷ ("requires_photo", Value.bool false)
    ∷ ("photo_criteria", Value.null)
    ∷ ("current_step_index", Value.num step_index)
    ∷ ("total_steps", Value.num 0)
    ∷ ("all_steps_completed", Value.bool true)
    ∷ []

-- `extra`
abbrev progress : ℕ → ℕ → Bool → Payload
progress step_index total_steps all_steps_completed =
    ("current_step_index", Value.num step_index)
    ∷ ("total_steps", Value.num total_steps)
    ∷ ("all_steps_completed", Value.bool all_steps_completed)
    ∷ []

module _ (digits : ℕ → String) where
  abbrev pub summary_of : ℕ → ℕ → Step → String
  summary_of step_index total_steps current =
      "Paso "
      <> (digits (step_index + 1)
          <> (" de "
              <> (digits total_steps
                  <> (": " <> (current.title <> (". " <> current.description))))))

  -- The result behind the tests on the index
  unfoldable pub current_step : ℕ → List Step → Exec World Payload
  current_step step_index steps =
      if length steps == 0
      then pure (no_steps step_index)
      else if not (ltb step_index (length steps))
      then (do
        last ← or_raise (get_elem? steps (length steps - 1)) index_error
        pure (step_payload last ++ progress step_index (length steps) true))
      else (do
        current ← or_raise (get_elem? steps step_index) index_error
        pure (
            step_payload current
            ++ progress step_index (length steps) false
            ++ ("summary", Value.text (summary_of step_index (length steps) current)) ∷ []))

  unfoldable pub get_current_step : String → User → Exec World Payload
  get_current_step session_id current_user = do
    (session, template) ← load_session_context session_id current_user
    current_step session.current_step_index template.steps
