-- ===== src/Voice/Route.antt =====
-- backend/src/application/use_cases/voice/classify_and_route.py. `classify` is the classifier of
-- intents, and `parse` the search of `ToolAddMeasurementUseCase.parse_from_text` for a value and a
-- unit, a regular expression.
use superion.Prelude.{String, Option, some, [], ◌∷◌, string_eq, ◌==◌, if◌then◌else◌}
use superion.Effect.{validation, Error, domain_error, Result, Exec, pure, or_raise, ◌>>=◌, ◌>>◌}
use superion.Value.{Value, Payload}
use superion.Domain.User.{User}
use superion.Domain.Session.{Session}
use superion.World.{World, uuid4}
use superion.World.Bus.{EventBus}
use superion.Events.Append.{require_session}
use superion.Reports.Builder.{Python}
use superion.Voice.Tools.{record_utterance, record_observation}
use superion.Voice.Query.{Retrieval}
use superion.Voice.Dispatch.{execute_tool}

pub record VoiceCommand : Type 0 where
  pub session_id : String
  pub text : String
  pub intent : String
  pub confidence : String
  pub audio_ref : Option String

-- `(name, value, unit)`
pub record Reading : Type 0 where
  pub name : String
  pub value : Value
  pub unit : String

abbrev pub no_measurement : Error
no_measurement = domain_error validation "VALIDATION_ERROR"

module _ (bus : EventBus) (py : Python) (float : Value → Result Value) (rag : Retrieval)
    (classify : String → String × String) (parse : String → Option Reading) where
  -- A call of a tool whose result is not used
  abbrev call_tool : String → String → Payload → User → String → Exec World (Unit {0})
  call_tool tool_name session_id arguments current_user call_id =
      execute_tool bus py float rag tool_name session_id arguments current_user (some call_id)
      >>= λ _. pure tt

  -- The tests on the intent
  unfoldable pub route : Session → String → String → String → User → String → Exec World (Unit {0})
  route session intent session_id text current_user call_id =
      if intent == "advance"
      then call_tool "mark_step_complete" session_id
          (("step_index", Value.num session.current_step_index) ∷ []) current_user call_id
      else if intent == "skip"
      then call_tool "skip_step" session_id
          (("step_index", Value.num session.current_step_index)
            ∷ ("reason", Value.text "voice skip")
            ∷ [])
          current_user call_id
      else if intent == "pause"
      then call_tool "pause_session" session_id [] current_user call_id
      else if intent == "query"
      then call_tool "query_manual" session_id (("question", Value.text text) ∷ []) current_user
          call_id
      else if intent == "measurement"
      then (do
        parsed ← or_raise (parse text) no_measurement
        call_tool "add_measurement" session_id
            (("name", Value.text parsed.name)
              ∷ ("value", parsed.value)
              ∷ ("unit", Value.text parsed.unit)
              ∷ [])
            current_user call_id)
      else if intent == "finding"
      then call_tool "add_finding" session_id
          (("text", Value.text text) ∷ ("severity", Value.text "med") ∷ []) current_user call_id
      else if intent == "narration"
      then record_observation bus session_id text current_user "voice"
      else pure tt

  -- `ClassifyAndRouteUseCase.execute`
  unfoldable pub classify_and_route :
      String → String → User → Option String → Exec World VoiceCommand
  classify_and_route session_id text current_user audio_ref = do
    session ← require_session session_id current_user
    let intent = (classify text).0
    record_utterance bus session_id text current_user "technician" (some intent) audio_ref
    call_id ← uuid4
    route session intent session_id text current_user call_id
    pure (record {
      session_id = session_id;
      text = text;
      intent = intent;
      confidence = (classify text).1;
      audio_ref = audio_ref;
    })
