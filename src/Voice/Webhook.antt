-- ===== src/Voice/Webhook.antt =====
-- backend/src/application/use_cases/voice/handle_webhook.py. The check of the signature, the parser of
-- the body, the client of the conversation graph and Python's `lower` are parameters.
use superion.Prelude.{
  ℕ, String, not, Option, none, some, List, [], ◌∷◌, string_eq, ◌==◌, if◌then◌else◌,
}
use superion.Effect.{
  validation, unauthorized, Error, domain_error, Result, Exec, pure, lift, gets, or_raise, raise_if,
  ◌>>=◌, ◌>>◌,
}
use superion.Dict.{get}
use superion.Value.{Value}
use superion.Domain.User.{User}
use superion.Domain.Event.{is_one_of}
use superion.World.{World}
use superion.World.Bus.{EventBus}
use superion.Events.Append.{require_session, session_not_found}
use superion.Sessions.Pause.{pause}
use superion.Reports.Builder.{Python}
use superion.Voice.Tools.{record_utterance}
use superion.Voice.Query.{Retrieval}
use superion.Voice.Route.{Reading, classify_and_route}

-- `WebhookEventInput`: the fields that the handler reads
pub record WebhookEventInput : Type 0 where
  pub event : String
  pub session_id : Option String
  pub text : Option String
  pub speaker : Option String
  pub audio_url : Option String
  pub reason : Option String

abbrev pub known_events : List String
known_events =
    "conversation.started" ∷ "utterance.final" ∷ "tool.called" ∷ "tool.responded"
    ∷ "turn.speaker_changed" ∷ "conversation.ended" ∷ "error" ∷ []

abbrev pub agent_speakers : List String
agent_speakers = "agent" ∷ "assistant" ∷ []

abbrev pub unauthenticated : Error
unauthenticated = domain_error unauthorized "UNAUTHORIZED"

abbrev pub invalid_event : Error
invalid_event = domain_error validation "VALIDATION_ERROR"

-- `a or b`, for an optional text
abbrev or_text : Option String → String → String
or_text none b = b
or_text (some a) b = if a == "" then b else a

-- `_resolve_user` for an authenticated caller
unfoldable pub check_session : Option String → User → Exec World User
check_session none current_user = pure current_user
check_session (some session_id) current_user =
    if session_id == ""
    then pure current_user
    else (do _ ← require_session session_id current_user; pure current_user)

-- `_resolve_user` for a call with no caller: the technician of the session
unfoldable pub technician_of : Option String → Exec World User
technician_of session_id = do
  id ← or_raise session_id unauthenticated
  found ← gets (λ w. get w.sessions id)
  session ← or_raise found session_not_found
  user ← gets (λ w. get w.users session.technician_id)
  or_raise user unauthenticated

-- `_resolve_user`
unfoldable pub resolve_user : Option String → Option User → Exec World User
resolve_user session_id none = technician_of session_id
resolve_user session_id (some current_user) = check_session session_id current_user

-- `_handle_conversation_started`
unfoldable pub conversation_started :
    (String → ℕ → Result (Unit {0})) → WebhookEventInput → Exec World (Unit {0})
conversation_started ensure_session event = do
  session_id ← or_raise event.session_id invalid_event
  found ← gets (λ w. get w.sessions session_id)
  session ← or_raise found session_not_found
  lift (ensure_session session_id session.current_step_index)

module _ (bus : EventBus) (py : Python) (float : Value → Result Value) (rag : Retrieval)
    (classify : String → String × String) (parse : String → Option Reading)
    (lower : String → String) where
  -- `_handle_utterance_final`
  unfoldable pub utterance_final : WebhookEventInput → User → Exec World (Unit {0})
  utterance_final event user = do
    session_id ← or_raise event.session_id invalid_event
    text ← or_raise event.text invalid_event
    if is_one_of (lower (or_text event.speaker "user")) agent_speakers
        then record_utterance bus session_id text user "agent" none event.audio_url
        else (classify_and_route bus py float rag classify parse session_id text user
              event.audio_url
            >>= λ _. pure tt)

  -- `_handle_conversation_ended`
  unfoldable pub conversation_ended : WebhookEventInput → User → Exec World (Unit {0})
  conversation_ended event user = do
    session_id ← or_raise event.session_id invalid_event
    _ ← pause bus session_id user (or_text event.reason "conversation_ended") none
    pure tt

  module _ (validate : List ℕ → Option String → Result (Unit {0}))
      (parse_body : List ℕ → Result WebhookEventInput)
      (ensure_session : String → ℕ → Result (Unit {0})) where
    -- The dispatch on the type of the event; `tool.called` is only logged, and with the three other
    -- known types nothing is done.
    unfoldable pub handle_event : WebhookEventInput → User → Exec World (Unit {0})
    handle_event event user =
        if event.event == "conversation.started"
        then conversation_started ensure_session event
        else if event.event == "utterance.final"
        then utterance_final event user
        else if event.event == "tool.called"
        then pure tt
        else if event.event == "conversation.ended"
        then conversation_ended event user
        else pure tt

    -- `HandleWebhookUseCase.execute`; the result is the event of the output.
    unfoldable pub handle_webhook : List ℕ → Option String → Option User → Exec World String
    handle_webhook raw_body signature_header current_user = do
      _ ← lift (validate raw_body signature_header)
      event ← lift (parse_body raw_body)
      raise_if (not (is_one_of event.event known_events)) invalid_event
      user ← resolve_user event.session_id current_user
      handle_event event user
      pure event.event
