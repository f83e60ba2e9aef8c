-- ===== src/Events/Append/Rules.antt =====
-- The rules for the actions of `Events.Append`: what they ensure, on every outcome.
use mathlib.Core.Path.{subst}
use text.Mathlib.TextEquality.{eq_iff}
use superion.Prelude.{ℕ, ◌+◌, String, ◌≡◌, ◌∙◌, sym, refl, Option, none, some, string_eq, arith}
use superion.Effect.{Result, ok, err, pure, lift, ◌>>=◌, ◌>>◌}
use superion.Effect.Rules.{
  Outcome, Ensures, Ensures-bind, Ensures-gets, Ensures-lift, Ensures-pure, Ensures-or_raise,
}
use superion.Value.{Payload}
use superion.Dict.{get}
use superion.Domain.User.{User}
use superion.Domain.Session.{Session}
use superion.Domain.Event.{Event, make_event, validate_rest_event_payload}
use superion.Events.Store.{next_seq, append, record_event}
use superion.World.{World, Message, now}
use superion.World.Bus.{EventBus, SameStores}
use superion.Events.Append.{
  owned_by, session_not_found, require_session, get_by_id_for_technician, event_to_ws_message,
  append_event, store_event, emit_system_event, append_new, stored_type,
}
use superion.Events.Append.Effects.{
  Emitted, emitted_event, at_publish, emit_system_event-eq-publish, emit_system_event-Emitted,
  emit_system_event-eq-ok,
}

owned_by-eq-some :
    (id : String) (o : Option Session) (s : Session)
    → some s ≡ owned_by id o
    → (o ≡ some s) × (s.technician_id ≡ id)
owned_by-eq-some id none s h = cc
owned_by-eq-some id (some t) s h = ground (arith, eq_iff t.technician_id id)

-- The rule for an emitted event in a longer action.
pub Ensures-emit :
    (bus : EventBus) (session_id event_type : String) (step_index : ℕ) (payload : Payload)
    (event_id : Option String) {P : World → Type 0} {Q : Event → World → Type 0}
    {E : World → Type 0}
    → ((w v : World)
        → P w
        → Emitted w v (emitted_event bus session_id event_type step_index payload w event_id)
        → Q (emitted_event bus session_id event_type step_index payload w event_id) v × E v)
    → Ensures P (emit_system_event bus session_id event_type step_index payload event_id) Q E
Ensures-emit bus session_id event_type step_index payload event_id {Q} {E} h = record {
  at = λ w p.
      outcome w (emit_system_event bus session_id event_type step_index payload event_id w).0
        (λ e. emit_system_event-eq-ok bus session_id event_type step_index payload w event_id)
        (h w (emit_system_event bus session_id event_type step_index payload event_id w).1 p
          (emit_system_event-Emitted bus session_id event_type step_index payload w event_id));
}
  where
    outcome :
        (w : World) (r : Result Event) {v : World} {x : Event}
        → ((e : Event) → r ≡ ok e → e ≡ x)
        → Q x v × E v
        → Outcome Q E r v
    outcome w (ok e) {v} same q = subst (λ (y : Event). Q y v) (sym (same e refl)) q.0
    outcome w (err e) same q = q.1

-- No handler on the bus raises.
abbrev pub IsQuiet : EventBus → Type 0
IsQuiet bus = (m : Message) (w : World) → (bus.publish m w).0 ≡ ok tt

-- Then a call returns the event that it appended.
emit_quiet :
    (bus : EventBus) (session_id event_type : String) (step_index : ℕ) (payload : Payload)
    (w : World) (event_id : Option String)
    → IsQuiet bus
    → (emit_system_event bus session_id event_type step_index payload event_id w).0
      ≡ ok (emitted_event bus session_id event_type step_index payload w event_id)
unfolding ◌>>=◌
emit_quiet bus session_id event_type step_index payload w event_id quiet = ground (
  arith,
  emit_system_event-eq-publish bus session_id event_type step_index payload w event_id,
  quiet
      (event_to_ws_message (emitted_event bus session_id event_type step_index payload w event_id))
      (at_publish bus session_id event_type step_index payload w event_id),
)

-- The rule for an emitted event that is always returned.
pub Ensures-emit_quiet :
    (bus : EventBus) (session_id event_type : String) (step_index : ℕ) (payload : Payload)
    (event_id : Option String) {P : World → Type 0} {Q : Event → World → Type 0}
    {E : World → Type 0}
    → IsQuiet bus
    → ((w v : World)
        → P w
        → Emitted w v (emitted_event bus session_id event_type step_index payload w event_id)
        → Q (emitted_event bus session_id event_type step_index payload w event_id) v)
    → Ensures P (emit_system_event bus session_id event_type step_index payload event_id) Q E
Ensures-emit_quiet bus session_id event_type step_index payload event_id {Q} {E} quiet h = record {
  at = λ w p.
      returned (emit_system_event bus session_id event_type step_index payload event_id w).0
        (emit_quiet bus session_id event_type step_index payload w event_id quiet)
        (h w (emit_system_event bus session_id event_type step_index payload event_id w).1 p
          (emit_system_event-Emitted bus session_id event_type step_index payload w event_id));
}
  where
    returned : (r : Result Event) {v : World} {x : Event} → r ≡ ok x → Q x v → Outcome Q E r v
    returned r {v} e q = rw e q

-- The rule for the look-up of the caller's session.
pub Ensures-require_session :
    (session_id : String) (user : User) {P : World → Type 0}
    → Ensures P
        (require_session session_id user)
        (λ s w. P w × (get w.sessions session_id ≡ some s) × (s.technician_id ≡ user.id))
        P
unfolding require_session get_by_id_for_technician
Ensures-require_session session_id user {P} =
    Ensures-bind (λ found w. P w × (found ≡ owned_by user.id (get w.sessions session_id))) _ _
      (Ensures-gets _ (λ w p. (p, refl)))
      λ found.
        Ensures-or_raise found session_not_found
          (λ w s e q. (
            q.0,
            (owned_by-eq-some user.id (get w.sessions session_id) s (sym e ∙ q.1)).0,
            (owned_by-eq-some user.id (get w.sessions session_id) s (sym e ∙ q.1)).1,
          ))
          (λ w q. q.0)

module _ (bus : EventBus) (e : Event) where
  abbrev at_store : World → World
  at_store w = record w { event_store = record_event w.event_store e }

  -- With the next number an event is stored, and then published.
  store_event-eq-publish :
      (w : World)
      → e.seq ≡ next_seq w.event_store e.session_id
      → store_event bus e w ≡ (bus.publish (event_to_ws_message e) >> pure e) (at_store w)
  unfolding store_event make_event append_event append next_seq ◌>>=◌
  store_event-eq-publish w h = ground arith

  pub Ensures-store_event :
      {P : World → Type 0} {Q : Event → World → Type 0} {E : World → Type 0}
      → ((w : World) → P w → e.seq ≡ next_seq w.event_store e.session_id)
      → ((w v : World) → P w → Emitted w v e → Q e v × E v)
      → Ensures P (store_event bus e) Q E
  unfolding ◌>>=◌
  Ensures-store_event {Q} {E} fits h = record {
    at = λ w p. rw (store_event-eq-publish w (fits w p)) (
        outcome (bus.publish (event_to_ws_message e) (at_store w)).0
          (bus.publish (event_to_ws_message e) (at_store w)).1
          (h w (bus.publish (event_to_ws_message e) (at_store w)).1 p (
            published w (fits w p)
              ((bus.publish-SameStores (event_to_ws_message e)).at (at_store w)))));
  }
    where
      published :
          (w : World) {v : World}
          → e.seq ≡ next_seq w.event_store e.session_id
          → SameStores (at_store w) v
          → Emitted w v e
      published w f s = record {
        others = record {
          sessions = s.sessions;
          work_orders = s.work_orders;
          templates = s.templates;
          users = s.users;
          photos = s.photos;
          photo_index = s.photo_index;
          uuid = s.uuid;
        };
        numbered = f;
        log = s.event_store;
      }

      outcome :
          (r : Result (Unit {0})) (v : World)
          → Q e v × E v
          → Outcome Q E ((lift r >>= λ _. pure e) v).0 ((lift r >>= λ _. pure e) v).1
      outcome (ok a) v q = q.0
      outcome (err x) v q = q.1

-- A new event of POST /events is refused, or stored under the id that the client gave.
pub Ensures-append_new :
    (bus : EventBus) (sid event_id event_type : String) (i : ℕ) (payload : Payload)
    (ws_type : Option String) {P : World → Type 0} {Q : ℕ → World → Type 0} {E : World → Type 0}
    → ((w : World) → P w → E w)
    → ((w v : World) (e : Event)
        → P w
        → e.session_id ≡ sid
        → e.id ≡ event_id
        → e.type ≡ stored_type ws_type event_type
        → Emitted w v e
        → Q e.seq v × E v)
    → ((w : World) (n : ℕ) → P w → P (record w { ticks = n }))
    → Ensures P (append_new bus sid event_id event_type i payload ws_type) Q E
unfolding append_new now
Ensures-append_new bus sid event_id event_type i payload ws_type {P} {Q} {E} refused stored ticked =
    Ensures-bind (λ _. P) _ _
      (Ensures-lift (validate_rest_event_payload event_type payload) (λ w a e p. p) refused)
      λ _.
        Ensures-bind (λ seq w. P w × (seq ≡ next_seq w.event_store sid)) _ _
          (Ensures-gets _ (λ w p. (p, refl)))
          λ seq.
            Ensures-bind (λ _ w. P w × (seq ≡ next_seq w.event_store sid)) _ _
              (record { at = λ w p. (ticked w (w.ticks + 1) p.0, p.1) })
              λ created_at.
                Ensures-bind (λ e. Q e.seq) _ _
                  (Ensures-store_event bus _ (λ w p. p.1)
                    (λ w v p m. stored w v _ p.0 refl refl refl m))
                  λ saved. Ensures-pure saved.seq (λ w p. p)
