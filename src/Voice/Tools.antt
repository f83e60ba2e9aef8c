-- ===== src/Voice/Tools.antt =====
-- The tools that the voice assistant calls, and what it records:
-- backend/src/application/use_cases/voice/tool_add_finding.py, tool_add_measurement.py,
-- tool_request_photo.py, tool_mark_step_complete.py, tool_get_current_step.py, record_utterance.py and
-- record_observation.py.
use superion.Prelude.{
  ℕ, String, Bool, true, false, not, Option, none, some, [], ◌∷◌, ◌++◌, string_eq, ◌==◌,
  if◌then◌else◌,
}
use superion.Effect.{validation, Error, domain_error, Exec, pure, raise_if, lift, ◌>>=◌, ◌>>◌}
use superion.Dict.{get}
use superion.Value.{Value, Payload, Fields}
use superion.Domain.User.{User}
use superion.Domain.Session.{Session}
use superion.Domain.Event.{is_one_of}
use superion.World.{World, uuid4}
use superion.World.Bus.{EventBus}
use superion.Events.Append.{emit_system_event, require_session, id_or_uuid}
use superion.Sessions.Current.{get_current_step}
use superion.Sessions.Transition.{mark_step_complete}
use superion.Reports.Builder.{Python, int_or, text_or}
use Prim.Native.String.{◌++◌ as ◌<>◌}

abbrev pub invalid_severity : Error
invalid_severity = domain_error validation "VALIDATION_ERROR"

-- The payload of `tool.called`
abbrev pub called_payload : String → Fields → String → Payload
called_payload tool_name arguments call_id =
    ("tool_name", Value.text tool_name)
    ∷ ("arguments", Value.object arguments)
    ∷ ("call_id", Value.text call_id)
    ∷ []

-- `if x is not None: payload[key] = x`
abbrev pub with_text : String → Option String → Payload
with_text key none = []
with_text key (some s) = (key, Value.text s) ∷ []

module _ (bus : EventBus) where
  -- `RecordUtteranceUseCase.execute`
  unfoldable pub record_utterance :
      String → String → User → String → Option String → Option String → Exec World (Unit {0})
  record_utterance session_id text current_user speaker intent audio_ref = do
    session ← require_session session_id current_user
    _ ←
        emit_system_event bus session_id "utterance" session.current_step_index
          (("text", Value.text text) ∷ ("speaker", Value.text speaker) ∷ with_text "intent" intent
            ++ with_text "audio_ref" audio_ref)
          none
    pure tt

  -- `RecordObservationUseCase.execute`
  unfoldable pub record_observation : String → String → User → String → Exec World (Unit {0})
  record_observation session_id text current_user source = do
    session ← require_session session_id current_user
    _ ←
        emit_system_event bus session_id "observation" session.current_step_index
          (("text", Value.text text) ∷ ("source", Value.text source) ∷ []) none
    pure tt

  -- The part of `ToolAddFindingUseCase.execute` behind the checks
  unfoldable pub log_finding :
      Session → String → String → String → Option String → Exec World Payload
  log_finding session session_id text severity call_id = do
    finding_id ← uuid4
    tool_call_id ← id_or_uuid call_id
    _ ←
        emit_system_event bus session_id "tool.called" session.current_step_index
          (called_payload "add_finding"
            (Fields.field "text" (Value.text text)
              (Fields.field "severity" (Value.text severity) Fields.end))
            tool_call_id)
          none
    _ ←
        emit_system_event bus session_id "finding" session.current_step_index
          (("text", Value.text text)
            ∷ ("severity", Value.text severity)
            ∷ ("finding_id", Value.text finding_id)
            ∷ [])
          none
    pure (("finding_id", Value.text finding_id) ∷ [])

  -- `ToolAddFindingUseCase.execute`
  unfoldable pub add_finding : String → String → String → User → Option String → Exec World Payload
  add_finding session_id text severity current_user call_id = do
    raise_if (not (is_one_of severity ("low" ∷ "med" ∷ "high" ∷ []))) invalid_severity
    session ← require_session session_id current_user
    log_finding session session_id text severity call_id

  -- `ToolAddMeasurementUseCase.execute`; the value is a float.
  unfoldable pub add_measurement :
      String → String → Value → String → User → Option String → Exec World Payload
  add_measurement session_id name value unit current_user call_id = do
    session ← require_session session_id current_user
    measurement_id ← uuid4
    tool_call_id ← id_or_uuid call_id
    _ ←
        emit_system_event bus session_id "tool.called" session.current_step_index
          (called_payload "add_measurement"
            (Fields.field "name" (Value.text name)
              (Fields.field "value" value (Fields.field "unit" (Value.text unit) Fields.end)))
            tool_call_id)
          none
    _ ←
        emit_system_event bus session_id "measurement" session.current_step_index
          (("name", Value.text name)
            ∷ ("value", value)
            ∷ ("unit", Value.text unit)
            ∷ ("measurement_id", Value.text measurement_id)
            ∷ [])
          none
    pure (("measurement_id", Value.text measurement_id) ∷ [])

  -- `ToolRequestPhotoUseCase.execute`
  unfoldable pub request_photo : String → ℕ → String → User → Option String → Exec World Payload
  request_photo session_id step_index criteria current_user call_id = do
    session ← require_session session_id current_user
    photo_id ← uuid4
    tool_call_id ← id_or_uuid call_id
    _ ←
        emit_system_event bus session_id "tool.called" step_index
          (called_payload "request_evidence_photo"
            (Fields.field "step_index" (Value.num step_index)
              (Fields.field "criteria" (Value.text criteria) Fields.end))
            tool_call_id)
          none
    _ ←
        emit_system_event bus session_id "photo.requested" step_index
          (("photo_id", Value.text photo_id)
            ∷ ("step_index", Value.num step_index)
            ∷ ("criteria", Value.text criteria)
            ∷ [])
          none
    pure (("accepted", Value.bool true) ∷ ("photo_id", Value.text photo_id) ∷ [])

  module _ (py : Python) where
    -- `step_index if step_index is not None else session.current_step_index`
    abbrev resolve_step : Option ℕ → Session → ℕ
    resolve_step none session = session.current_step_index
    resolve_step (some i) session = i

    -- `next_step.get("all_steps_completed")`, for the result of `get_current_step`
    abbrev is_true : Option Value → Bool
    is_true (some (Value.bool b)) = b
    is_true _ = false

    abbrev done_text : ℕ → String
    done_text i = "Paso " <> (py.digits i <> " completado.")

    -- The summary that the tool returns
    abbrev completed_summary : ℕ → Payload → String
    completed_summary i next_step =
        if is_true (get next_step "all_steps_completed")
        then done_text i <> " Procedimiento terminado; puedes finalizar la sesión."
        else if text_or py "" (get next_step "summary") == ""
        then done_text i
        else done_text i <> (" Siguiente: " <> text_or py "" (get next_step "summary"))

    -- `ToolMarkStepCompleteUseCase.execute`
    unfoldable pub complete_step : String → Option ℕ → User → Option String → Exec World Payload
    complete_step session_id step_index current_user call_id = do
      session ← require_session session_id current_user
      let resolved_step = resolve_step step_index session
      tool_call_id ← id_or_uuid call_id
      _ ←
          emit_system_event bus session_id "tool.called" resolved_step
            (called_payload "mark_step_complete"
              (Fields.field "step_index" (Value.num resolved_step) Fields.end) tool_call_id)
            none
      _ ← mark_step_complete bus session_id resolved_step current_user "voice" none
      next_step ← get_current_step py.digits session_id current_user
      pure (
          ("ok", Value.bool true)
          ∷ ("summary", Value.text (completed_summary resolved_step next_step))
          ∷ [])

    -- `ToolGetCurrentStepUseCase.execute`
    unfoldable pub tell_current_step : String → User → Option String → Exec World Payload
    tell_current_step session_id current_user call_id = do
      result ← get_current_step py.digits session_id current_user
      step_index ← lift (int_or py 0 (get result "current_step_index"))
      tool_call_id ← id_or_uuid call_id
      _ ←
          emit_system_event bus session_id "tool.called" step_index
            (called_payload "get_current_step" Fields.end tool_call_id) none
      pure result
