-- ===== src/Events/Post.antt =====
-- backend/src/application/use_cases/events/post.py: POST /v1/sessions/{id}/events.
pub mod Steps
pub mod Idempotent
use superion.Prelude.{ℕ, String, Bool, Option, none, some, string_eq, ◌==◌, if◌then◌else◌}
use superion.Effect.{validation, Error, domain_error, Exec, pure, raise, gets, ◌>>=◌}
use superion.Dict.{get}
use superion.Value.{Payload, Value, is_text}
use superion.Domain.User.{User}
use superion.Domain.Event.{Event}
use superion.World.{World}
use superion.World.Bus.{EventBus}
use superion.Events.Append
use superion.Events.Append.{find_by_event_id}
use superion.Sessions.Pause
use superion.Sessions.Transition

-- `AppendEventInput`
pub record EventInput : Type 0 where
  pub event_id : String
  pub type : String
  pub step_index : ℕ
  pub payload : Payload

-- `str(body.payload.get("reason", ""))`, for a reason that is a text. `other` gives Python's `str` of
-- any other value.
abbrev pub reason_text : (Value → String) → Option Value → String
reason_text other none = ""
reason_text other (some (Value.text s)) = s
reason_text other (some v) = other v

abbrev pub unsupported : Error
unsupported = domain_error validation "VALIDATION_ERROR"

module _ (bus : EventBus) (str : Value → String) where
  -- The dispatch on the type, behind the look-up of the event id
  unfoldable pub dispatch : String → EventInput → User → Exec World ℕ
  dispatch session_id body current_user =
      if body.type == "command"
      then (if is_text "pause" (get body.payload "command")
          then Pause.pause bus session_id current_user "user" (some body.event_id)
          else if is_text "resume" (get body.payload "command")
          then Pause.resume bus session_id current_user "user" (some body.event_id)
          else raise unsupported)
      else if body.type == "step_advance"
      then Transition.mark_step_complete bus session_id body.step_index current_user "command"
          (some body.event_id)
      else if body.type == "step_skip"
      then Transition.skip_step bus session_id body.step_index
          (reason_text str (get body.payload "reason")) current_user (some body.event_id)
      else Append.execute bus session_id body.event_id body.type body.step_index body.payload
          current_user none

  -- `PostSessionEventUseCase.execute`; the result is the `seq` of the output.
  unfoldable pub execute : String → EventInput → User → Exec World ℕ
  execute session_id body current_user = do
    existing ← gets (λ w. find_by_event_id w session_id body.event_id)
    elim existing [ some e ↦ pure e.seq | none ↦ dispatch session_id body current_user ]
