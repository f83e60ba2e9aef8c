-- ===== src/Events/Store.antt =====
-- backend/src/infrastructure/persistence/in_memory/session_event_repository.py: the append-only log
-- of each session. Every method holds the session's lock from its first to its last statement, so a
-- method is one step.
pub mod Invariant
pub mod Pages
use superion.Prelude.{
  ℕ, zero, suc, ◌+◌, String, Bool, true, false, Option, none, some, List, [], ◌∷◌, ◌++◌, string_eq,
  nat_eq, pair_eq, ◌==◌, ◌&&◌, ltb, any, keep, take, if◌then◌else◌,
}
use superion.Effect.{value_error, Exec, pure, raise}
use superion.Dict.{Dict, get, get_or, put}
use superion.Value.{is_text}
use superion.Domain.Event.{Event}

pub record EventStore : Type 0 where
  pub events : Dict String (List Event)
  pub seq_counters : Dict String ℕ
  pub event_id_index : Dict (String × String) Event

abbrev pub empty : EventStore
empty = record { events = []; seq_counters = []; event_id_index = [] }

-- `self._events.get(session_id, [])`
unfoldable pub events_of : EventStore → String → List Event
events_of st session_id = get_or st.events session_id []

-- `self._seq_counters.get(session_id, 0)`
unfoldable pub counter_of : EventStore → String → ℕ
counter_of st session_id = get_or st.seq_counters session_id 0

unfoldable pub next_seq : EventStore → String → ℕ
next_seq st session_id = counter_of st session_id + 1

-- The three assignments of `append`, after its guard.
unfoldable pub record_event : EventStore → Event → EventStore
record_event st e = record {
  events = put st.events e.session_id (events_of st e.session_id ++ e ∷ []);
  seq_counters = put st.seq_counters e.session_id e.seq;
  event_id_index = put st.event_id_index (e.session_id, e.id) e;
}

unfoldable pub append : Event → Exec EventStore Event
append e st =
    if e.seq == counter_of st e.session_id + 1
    then pure e (record_event st e)
    else raise value_error st

unfoldable pub get_by_event_id : EventStore → String → String → Option Event
get_by_event_id st session_id event_id = get st.event_id_index (session_id, event_id)

unfoldable pub list_since : EventStore → String → ℕ → ℕ → List Event
list_since st session_id since_seq limit =
    take limit (keep (λ e. ltb since_seq e.seq) (events_of st session_id))

-- The test of `has_accepted_photo` on one event
abbrev pub is_accepted_photo : ℕ → Event → Bool
is_accepted_photo step_index e =
    e.type == "photo" && e.step_index == step_index && is_text "accepted" (get e.payload "status")

unfoldable pub has_accepted_photo : EventStore → String → ℕ → Bool
has_accepted_photo st session_id step_index =
    any (is_accepted_photo step_index) (events_of st session_id)

abbrev pub reset : EventStore → EventStore
reset st = empty
