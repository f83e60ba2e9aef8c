-- ===== src/Events/Append.antt =====
-- backend/src/application/use_cases/events/append.py and
-- backend/src/application/services/event_broadcast.py.
pub mod Effects
pub mod Rules
use superion.Prelude.{
  ℕ, String, Bool, true, false, Option, none, some, List, [], ◌∷◌, string_eq, ◌==◌, not,
  if◌then◌else◌,
}
use superion.Effect.{
  not_found, Error, domain_error, Exec, pure, raise, lift, gets, or_raise, raise_if, ◌>>=◌, ◌>>◌,
}
use superion.Dict.{Dict, get, put}
use superion.Value.{Value, Payload}
use superion.Domain.User.{User}
use superion.Domain.Session.{Session, is_finalized, already_finalized}
use superion.Domain.Event.{
  Event, make_event, is_one_of, ws_appended_types, validate_rest_event_payload,
}
use superion.Events.Store.{append, next_seq, get_by_event_id}
use superion.World.{World, Message, uuid4, now}
use superion.World.Bus.{EventBus}

-- `{**d, **p}`
merge : Payload → Payload → Payload
merge d [] = d
merge d ((k, v) ∷ p) = merge (put d k v) p

unfoldable pub event_to_ws_message : Event → Message
unfolding merge
event_to_ws_message e =
    if is_one_of e.type ws_appended_types
    then record {
      seq = e.seq;
      type = "event.appended";
      session_id = e.session_id;
      created_at = e.created_at;
      payload =
          merge
            (("type", Value.text e.type)
              ∷ ("event_id", Value.text e.id)
              ∷ ("step_index", Value.num e.step_index)
              ∷ [])
            e.payload;
    }
    else record {
      seq = e.seq;
      type = e.type;
      session_id = e.session_id;
      created_at = e.created_at;
      payload = e.payload;
    }

abbrev pub session_not_found : Error
session_not_found = domain_error not_found "SESSION_NOT_FOUND"

-- The tests of `get_by_id_for_technician` of
-- backend/src/infrastructure/persistence/in_memory/session_repository.py
abbrev pub owned_by : String → Option Session → Option Session
owned_by technician_id none = none
owned_by technician_id (some s) = if not (s.technician_id == technician_id) then none else some s

unfoldable pub get_by_id_for_technician : World → String → String → Option Session
get_by_id_for_technician w session_id technician_id =
    owned_by technician_id (get w.sessions session_id)

-- The look-up that opens every use case: the session, if it is the caller's own.
unfoldable pub require_session : String → User → Exec World Session
require_session session_id current_user = do
  found ← gets (λ w. get_by_id_for_technician w session_id current_user.id)
  or_raise found session_not_found

-- `self._events.append`, on the world
unfoldable pub append_event : Event → Exec World Event
append_event e w = let (r, st) = append e w.event_store in (r, record w { event_store = st })

-- `event_id or str(uuid4())`
unfoldable pub id_or_uuid : Option String → Exec World String
id_or_uuid none = uuid4
id_or_uuid (some id) = if id == "" then uuid4 else pure id

-- `ws_type or event_type`
abbrev pub stored_type : Option String → String → String
stored_type none event_type = event_type
stored_type (some t) event_type = if t == "" then event_type else t

-- `AppendEventUseCase.find_by_event_id`
abbrev pub find_by_event_id : World → String → String → Option Event
find_by_event_id w session_id event_id = get_by_event_id w.event_store session_id event_id

module _ (bus : EventBus) where
  -- The end of `execute` and of `emit_system_event`: build the event, store it, publish it.
  unfoldable pub store_event : Event → Exec World Event
  store_event e = do
    event ← lift (make_event e)
    saved ← append_event event
    bus.publish (event_to_ws_message saved)
    pure saved

  unfoldable pub emit_system_event :
      String → String → ℕ → Payload → Option String → Exec World Event
  emit_system_event session_id event_type step_index payload event_id = do
    seq ← gets (λ w. next_seq w.event_store session_id)
    id ← id_or_uuid event_id
    created_at ← now
    store_event (record {
      id = id;
      session_id = session_id;
      seq = seq;
      type = event_type;
      payload = payload;
      step_index = step_index;
      created_at = created_at;
    })

  -- The part of `execute` behind the look-up of the event id
  unfoldable pub append_new : String → String → String → ℕ → Payload → Option String → Exec World ℕ
  append_new session_id event_id event_type step_index payload ws_type = do
    lift (validate_rest_event_payload event_type payload)
    seq ← gets (λ w. next_seq w.event_store session_id)
    created_at ← now
    saved ← store_event (record {
      id = event_id;
      session_id = session_id;
      seq = seq;
      type = stored_type ws_type event_type;
      payload = payload;
      step_index = step_index;
      created_at = created_at;
    })
    pure saved.seq

  -- `AppendEventUseCase.execute`; the result is the `seq` of the output, whose `accepted` is true.
  unfoldable pub execute :
      String → String → String → ℕ → Payload → User → Option String → Exec World ℕ
  execute session_id event_id event_type step_index payload current_user ws_type = do
    session ← require_session session_id current_user
    raise_if (is_finalized session.status) already_finalized
    existing ← gets (λ w. get_by_event_id w.event_store session_id event_id)
    elim existing [
      | some e ↦ pure e.seq
      | none ↦ append_new session_id event_id event_type step_index payload ws_type
    ]
