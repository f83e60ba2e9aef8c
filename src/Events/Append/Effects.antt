-- ===== src/Events/Append/Effects.antt =====
-- What an emitted event does to the world: exactly one event more in the log of its session, with
-- the next number, also when a handler on the bus raises.
use text.Mathlib.TextEquality.{eq_iff}
use superion.Prelude.{
  ℕ, ◌+◌, String, ◌≡◌, ◌≢◌, refl, Option, none, some, [], ◌∷◌, ◌++◌, string_eq, ◌==◌, arith,
  pair_beq, if◌then◌else◌,
}
use superion.Effect.{ok, pure, ◌>>=◌, ◌>>◌}
use superion.Effect.Rules.{state-then-pure, then-pure-eq-ok}
use superion.Value.{Payload}
use superion.Domain.Event.{Event, make_event}
use superion.Events.Store.{next_seq, append, record_event, events_of, get_by_event_id}
use superion.Events.Store.Invariant.{
  IsLog, record_event-IsLog, events_of-record_event, get_by_event_id-record_event,
}
use superion.World.{World, uuid4, now}
use superion.World.Bus.{EventBus}
use superion.Events.Append.{
  event_to_ws_message, append_event, id_or_uuid, store_event, emit_system_event,
}

-- The stores other than the event log are the same.
pub record SameOthers (w v : World) : Type 0 where
  pub sessions : v.sessions ≡ w.sessions
  pub work_orders : v.work_orders ≡ w.work_orders
  pub templates : v.templates ≡ w.templates
  pub users : v.users ≡ w.users
  pub photos : v.photos ≡ w.photos
  pub photo_index : v.photo_index ≡ w.photo_index
  pub uuid : v.uuid ≡ w.uuid

-- `v` holds one event more than `w`: `e`, appended to the log of its session.
pub record Emitted (w v : World) (e : Event) : Type 0 where
  pub others : SameOthers w v
  pub numbered : e.seq ≡ next_seq w.event_store e.session_id
  pub log : v.event_store ≡ record_event w.event_store e

-- The id that an emitted event gets
abbrev pub chosen_id : World → Option String → String
chosen_id w none = w.uuid w.drawn
chosen_id w (some id) = if id == "" then w.uuid w.drawn else id

abbrev pub drawn_after : World → Option String → ℕ
drawn_after w none = w.drawn + 1
drawn_after w (some id) = if id == "" then w.drawn + 1 else w.drawn

module _ (bus : EventBus) (session_id event_type : String) (step_index : ℕ)
    (payload : Payload) where
  abbrev pub emitted_event : World → Option String → Event
  emitted_event w event_id = record {
    id = chosen_id w event_id;
    session_id = session_id;
    seq = next_seq w.event_store session_id;
    type = event_type;
    payload = payload;
    step_index = step_index;
    created_at = w.clock w.ticks;
  }

  -- the world when the bus is called
  abbrev pub at_publish : World → Option String → World
  at_publish w event_id = record w {
    drawn = drawn_after w event_id;
    ticks = w.ticks + 1;
    event_store = record_event w.event_store (emitted_event w event_id);
  }

  -- `emit_system_event` never fails before the bus is called.
  pub emit_system_event-eq-publish :
      (w : World) (event_id : Option String)
      → emit_system_event bus session_id event_type step_index payload event_id w
        ≡ (bus.publish (event_to_ws_message (emitted_event w event_id))
              >> pure (emitted_event w event_id))
            (at_publish w event_id)
  unfolding emit_system_event store_event id_or_uuid uuid4 now make_event append_event append
      next_seq ◌>>=◌
  emit_system_event-eq-publish w none = ground arith
  emit_system_event-eq-publish w (some id) = ground arith

  -- Whether the handlers on the bus return or raise, one event has been appended.
  pub emit_system_event-Emitted :
      (w : World) (event_id : Option String)
      → Emitted w
          (emit_system_event bus session_id event_type step_index payload event_id w).1
          (emitted_event w event_id)
  unfolding next_seq
  emit_system_event-Emitted w event_id =
      rw (emit_system_event-eq-publish, state-then-pure)
        (let s =
            (bus.publish-SameStores (event_to_ws_message (emitted_event w event_id))).at
              (at_publish w event_id) in
          record {
            others = record {
              sessions = s.sessions;
              work_orders = s.work_orders;
              templates = s.templates;
              users = s.users;
              photos = s.photos;
              photo_index = s.photo_index;
              uuid = s.uuid;
            };
            numbered = refl;
            log = s.event_store;
          })

  -- A call that returns, returns the event that it appended.
  pub emit_system_event-eq-ok :
      (w : World) (event_id : Option String) {e : Event}
      → (emit_system_event bus session_id event_type step_index payload event_id w).0 ≡ ok e
      → e ≡ emitted_event w event_id
  emit_system_event-eq-ok w event_id h =
      then-pure-eq-ok (bus.publish (event_to_ws_message (emitted_event w event_id)))
        (emitted_event w event_id) (at_publish w event_id) (rw emit_system_event-eq-publish at h)

pub Emitted-IsLog :
    {w v : World} {e : Event} → Emitted w v e → IsLog w.event_store → IsLog v.event_store
unfolding next_seq
Emitted-IsLog {w} {v} {e} m h = rw m.log (record_event-IsLog w.event_store e h m.numbered)

pub Emitted-events_of :
    {w v : World} {e : Event} (sid : String)
    → Emitted w v e
    → events_of v.event_store sid ≡ (
        if e.session_id == sid
        then events_of w.event_store e.session_id ++ e ∷ []
        else events_of w.event_store sid)
Emitted-events_of {w} {v} {e} sid m = rw m.log (events_of-record_event w.event_store e sid)

pub Emitted-get_by_event_id :
    {w v : World} {e : Event} (sid id : String)
    → Emitted w v e
    → get_by_event_id v.event_store sid id ≡ (
        if pair_beq (e.session_id, e.id) (sid, id)
        then some e
        else get_by_event_id w.event_store sid id)
Emitted-get_by_event_id {w} {v} {e} sid id m =
    rw m.log (get_by_event_id-record_event w.event_store e sid id)

-- An emitted event is found by its id, and hides no event with another id.
module _ {w v : World} {e : Event} (sid id : String) (m : Emitted w v e) where
  pub Emitted-found : e.session_id ≡ sid → e.id ≡ id → get_by_event_id v.event_store sid id ≡ some e
  Emitted-found p q =
      ground (arith, Emitted-get_by_event_id sid id m, eq_iff e.session_id sid, eq_iff e.id id)

  pub Emitted-kept :
      e.id ≢ id → get_by_event_id v.event_store sid id ≡ get_by_event_id w.event_store sid id
  Emitted-kept ne = ground (arith, Emitted-get_by_event_id sid id m, eq_iff e.id id)
