-- ===== src/Sessions/Transition.antt =====
-- backend/src/application/use_cases/sessions/transition_step.py.
pub mod Context
pub mod Holds
pub mod Complete
pub mod Skip
use superion.Prelude.{
  ℕ, ◌+◌, String, Bool, true, false, Option, none, some, [], ◌∷◌, ◌&&◌, not, ltb, length, get_elem?,
  if◌then◌else◌,
}
use superion.Effect.{
  not_found, conflict, Error, domain_error, index_error, Exec, pure, raise, gets, or_raise,
  raise_if, ◌>>=◌, ◌>>◌,
}
use superion.Value.{Value, Payload}
use superion.Domain.User.{User}
use superion.Domain.Session.{Session, is_finalized, already_finalized}
use superion.Domain.Template.{Step, Template, is_in}
use superion.Events.Store.{has_accepted_photo}
use superion.World.{World}
use superion.World.Bus.{EventBus}
use superion.Events.Append.{emit_system_event, require_session}
use superion.Sessions.Repository.{save, get_order_for_technician, get_template}

abbrev pub work_order_not_found : Error
work_order_not_found = domain_error not_found "WORK_ORDER_NOT_FOUND"

abbrev pub requires_photo : Error
requires_photo = domain_error conflict "STEP_REQUIRES_PHOTO"

abbrev pub cannot_skip : Error
cannot_skip = domain_error conflict "STEP_CRITICAL_CANNOT_SKIP"

unfoldable pub load_session_context : String → User → Exec World (Session × Template)
load_session_context session_id current_user = do
  session ← require_session session_id current_user
  raise_if (is_finalized session.status) already_finalized
  assigned ← gets (λ w. get_order_for_technician w session.work_order_id current_user.id)
  order ← or_raise assigned work_order_not_found
  found_template ← gets (λ w. get_template w order.procedure_template_id)
  template ← or_raise found_template work_order_not_found
  pure (session, template)

-- `x` or `None`, in a payload
abbrev pub text_or_null : Option String → Value
text_or_null none = Value.null
text_or_null (some s) = Value.text s

unfoldable pub step_payload : Step → Payload
step_payload step =
    ("index", Value.num step.index)
    ∷ ("title", Value.text step.title)
    ∷ ("description", Value.text step.description)
    ∷ ("estimated_minutes", Value.num step.estimated_minutes)
    ∷ ("critical", Value.bool step.critical)
    ∷ ("requires_photo", Value.bool step.requires_photo)
    ∷ ("photo_criteria", text_or_null step.photo_criteria)
    ∷ []

unfoldable pub completed_payload : ℕ → String → Payload
completed_payload step_index completed_by =
    ("index", Value.num step_index)
    ∷ ("duration_seconds", Value.num 0)
    ∷ ("completed_by", Value.text completed_by)
    ∷ []

unfoldable pub skipped_payload : ℕ → String → Payload
skipped_payload step_index reason =
    ("index", Value.num step_index) ∷ ("reason", Value.text reason) ∷ []

-- `replace(session, current_step_index=next_index)`
abbrev pub at_step : Session → ℕ → Session
at_step session next_index = record session { current_step_index = next_index }

-- `if step_index in template.photo_required_step_indices: ...`
unfoldable pub photo_gate : String → ℕ → Template → Exec World (Unit {0})
photo_gate session_id step_index template = do
  missing ← gets (λ w.
      is_in step_index template.photo_required_step_indices
      && not (has_accepted_photo w.event_store session_id step_index))
  raise_if missing requires_photo

module _ (bus : EventBus) where
  -- `if next_index < len(template.steps): ...` of `mark_step_complete`
  unfoldable pub enter_step : String → Session → Template → ℕ → Exec World (Unit {0})
  enter_step session_id session template next_index =
      if ltb next_index (length template.steps)
      then (do
        save (at_step session next_index)
        step ← or_raise (get_elem? template.steps next_index) index_error
        _ ← emit_system_event bus session_id "step.entered" next_index (step_payload step) none
        pure tt)
      else pure tt

  unfoldable pub mark_step_complete : String → ℕ → User → String → Option String → Exec World ℕ
  mark_step_complete session_id step_index current_user completed_by event_id = do
    (session, template) ← load_session_context session_id current_user
    photo_gate session_id step_index template
    completed ←
        emit_system_event bus session_id "step.completed" step_index
          (completed_payload step_index completed_by) event_id
    enter_step session_id session template (step_index + 1)
    pure completed.seq

  unfoldable pub skip_step : String → ℕ → String → User → Option String → Exec World ℕ
  skip_step session_id step_index reason current_user event_id = do
    (session, template) ← load_session_context session_id current_user
    raise_if (is_in step_index template.critical_step_indices) cannot_skip
    skipped ←
        emit_system_event bus session_id "step.skipped" step_index
          (skipped_payload step_index reason) event_id
    if ltb (step_index + 1) (length template.steps)
        then save (at_step session (step_index + 1))
        else pure tt
    pure skipped.seq
