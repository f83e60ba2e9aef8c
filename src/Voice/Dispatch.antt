-- ===== src/Voice/Dispatch.antt =====
-- backend/src/application/use_cases/voice/execute_tool.py.
use superion.Prelude.{
  ℕ, String, true, not, Option, none, some, List, [], ◌∷◌, string_eq, ◌==◌, if◌then◌else◌,
}
use superion.Effect.{
  not_found, validation, key_error, Error, domain_error, Result, ok, err, Exec, pure, raise, lift,
  or_raise, raise_if, ◌>>=◌, ◌>>◌,
}
use superion.Dict.{get}
use superion.Value.{Value, Payload}
use superion.Domain.User.{User}
use superion.Domain.Event.{is_one_of}
use superion.World.{World}
use superion.World.Bus.{EventBus}
use superion.Sessions.Pause.{pause}
use superion.Sessions.Transition.{skip_step}
use superion.Reports.Builder.{Python, int_or, text_or}
use superion.Voice.Query.{Retrieval, query_manual}
use superion.Voice.Tools.{
  add_finding, add_measurement, request_photo, complete_step, tell_current_step,
}

abbrev pub supported_tools : List String
supported_tools =
    "query_manual" ∷ "get_current_step" ∷ "mark_step_complete" ∷ "request_evidence_photo"
    ∷ "add_finding" ∷ "add_measurement" ∷ "skip_step" ∷ "pause_session" ∷ []

abbrev pub unsupported_tool : Error
unsupported_tool = domain_error validation "VALIDATION_ERROR"

abbrev not_implemented : Error
not_implemented = domain_error not_found "NOT_FOUND"

abbrev accepted : Payload
accepted = ("ok", Value.bool true) ∷ []

module _ (bus : EventBus) (py : Python) (float : Value → Result Value) (rag : Retrieval) where
  -- `str(x) if x is not None else None`
  abbrev optional_text : Option Value → Option String
  optional_text none = none
  optional_text (some Value.null) = none
  optional_text v = some (text_or py "" v)

  -- `int(x) if x is not None else None`
  abbrev optional_int : Option Value → Result (Option ℕ)
  optional_int none = ok none
  optional_int (some Value.null) = ok none
  optional_int v = elim (int_or py 0 v) [ ok i ↦ ok (some i) | err e ↦ err e ]

  -- `execute`, behind the test of the name
  unfoldable pub run_tool : String → String → Payload → User → Option String → Exec World Payload
  run_tool tool_name session_id arguments current_user call_id =
      if tool_name == "query_manual"
      then query_manual bus rag session_id (text_or py "" (get arguments "question")) current_user
          (optional_text (get arguments "asset_id")) call_id
      else if tool_name == "get_current_step"
      then tell_current_step bus py session_id current_user call_id
      else if tool_name == "mark_step_complete"
      then (do
        step_index ← lift (optional_int (get arguments "step_index"))
        complete_step bus py session_id step_index current_user call_id)
      else if tool_name == "request_evidence_photo"
      then (do
        given ← or_raise (get arguments "step_index") key_error
        step_index ← lift (int_or py 0 (some given))
        request_photo bus session_id step_index (text_or py "" (get arguments "criteria"))
            current_user call_id)
      else if tool_name == "add_finding"
      then add_finding bus session_id (text_or py "" (get arguments "text"))
          (text_or py "med" (get arguments "severity")) current_user call_id
      else if tool_name == "add_measurement"
      then (do
        given ← or_raise (get arguments "value") key_error
        value ← lift (float given)
        unit ← or_raise (get arguments "unit") key_error
        add_measurement bus session_id (text_or py "medicion" (get arguments "name")) value
            (text_or py "" (some unit)) current_user call_id)
      else if tool_name == "skip_step"
      then (do
        given ← or_raise (get arguments "step_index") key_error
        step_index ← lift (int_or py 0 (some given))
        _ ←
            skip_step bus session_id step_index (text_or py "voice" (get arguments "reason"))
              current_user none
        pure accepted)
      else if tool_name == "pause_session"
      then (do _ ← pause bus session_id current_user "voice" none; pure accepted)
      else raise not_implemented

  -- `ExecuteToolUseCase.execute`
  unfoldable pub execute_tool :
      String → String → Payload → User → Option String → Exec World Payload
  execute_tool tool_name session_id arguments current_user call_id = do
    raise_if (not (is_one_of tool_name supported_tools)) unsupported_tool
    run_tool tool_name session_id arguments current_user call_id
