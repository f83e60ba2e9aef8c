-- ===== src/Voice/Finding.antt =====
-- A finding that is told by voice.
use text.Mathlib.TextEquality.{eq_iff}
use superion.Prelude.{
  String, ◌≡◌, refl, true, false, Option, none, some, List, [], ◌∷◌, ◌++◌, arith, string_eq, ◌==◌,
}
use superion.Effect.{ok, err, ◌>>=◌}
use superion.Effect.Rules.{
  Ensures, Ensures-bind, Ensures-pure, Ensures-if, Ensures-given, returns_of_Outcome,
}
use superion.Dict.{get}
use superion.Value.{Value, Payload}
use superion.Domain.User.{User}
use superion.Domain.Session.{Session}
use superion.Domain.Event.{Event, is_one_of}
use superion.Events.Store.{events_of}
use superion.Events.Append.{require_session, get_by_id_for_technician, id_or_uuid}
use superion.Events.Append.Rules.{IsQuiet, Ensures-emit_quiet}
use superion.Sessions.Transition.Holds.{Holds, Emitted-Holds}
use superion.World.{World, uuid4}
use superion.World.Bus.{EventBus}
use superion.Voice.Tools.{add_finding, log_finding, invalid_severity}

-- The world behind a finding that is logged, for the answer of the call
pub record Logged (sid : String) (s : Session) (text severity : String) (w : World) (out : Payload)
    (v : World) : Type 0 where
  pub called : Event
  pub finding : Event
  pub log :
      events_of v.event_store sid ≡ (events_of w.event_store sid ++ called ∷ []) ++ finding ∷ []
  pub session : get v.sessions sid ≡ some s
  pub kinds : (called.type ≡ "tool.called") × (finding.type ≡ "finding")
  pub steps :
      (called.step_index ≡ s.current_step_index) × (finding.step_index ≡ s.current_step_index)
  pub id : String
  pub payload :
      finding.payload
      ≡ ("text", Value.text text)
        ∷ ("severity", Value.text severity)
        ∷ ("finding_id", Value.text id)
        ∷ []
  pub answer : out ≡ ("finding_id", Value.text id) ∷ []

module _ (bus : EventBus) (quiet : IsQuiet bus) (w : World) (sid : String) (user : User)
    (s : Session) (stored : get w.sessions sid ≡ some s) (owner : s.technician_id ≡ user.id)
    (text severity : String) (call_id : Option String) where
  abbrev levels : List String
  levels = "low" ∷ "med" ∷ "high" ∷ []

  abbrev before : List Event
  before = events_of w.event_store sid

  refused_level :
      is_one_of severity levels ≡ false
      → add_finding bus sid text severity user call_id w ≡ (err invalid_severity, w)
  unfolding add_finding ◌>>=◌
  refused_level h = ground arith

  add_finding-eq :
      is_one_of severity levels ≡ true
      → add_finding bus sid text severity user call_id w
        ≡ log_finding bus s sid text severity call_id w
  unfolding add_finding require_session get_by_id_for_technician ◌>>=◌
  add_finding-eq h = ground (arith, eq_iff s.technician_id user.id)

  uuid4-Holds : (es : List Event) → Ensures (Holds sid s es) uuid4 (λ _. Holds sid s es) (λ _. ⊥)
  unfolding uuid4
  uuid4-Holds es = record { at = λ v h. h }

  id_or_uuid-Holds :
      (es : List Event) (o : Option String)
      → Ensures (Holds sid s es) (id_or_uuid o) (λ _. Holds sid s es) (λ _. ⊥)
  unfolding id_or_uuid
  id_or_uuid-Holds es none = uuid4-Holds es
  id_or_uuid-Holds es (some id) =
      Ensures-if (id == "") _ _ (λ _. uuid4-Holds es) (λ _. Ensures-pure id (λ v p. p))

  log_finding-Logged :
      Ensures
        (Holds sid s before)
        (log_finding bus s sid text severity call_id)
        (Logged sid s text severity w)
        (λ _. ⊥)
  unfolding log_finding
  log_finding-Logged =
      Ensures-bind (λ _. Holds sid s before) _ _ (uuid4-Holds before)
        λ id.
          Ensures-bind (λ _. Holds sid s before) _ _ (id_or_uuid-Holds before call_id)
            λ tool_call_id.
              Ensures-bind
                (λ e v.
                  Holds sid s (before ++ e ∷ []) v
                  × ((e.type ≡ "tool.called") × (e.step_index ≡ s.current_step_index)))
                _ _
                (Ensures-emit_quiet bus sid "tool.called" s.current_step_index _ none quiet
                  (λ u v p m. (Emitted-Holds sid s before m refl p, (refl, refl))))
                λ e. Ensures-given λ marks.
                  Ensures-bind
                    (λ f v.
                      Holds sid s ((before ++ e ∷ []) ++ f ∷ []) v
                      × ((f.type ≡ "finding")
                          × (f.step_index ≡ s.current_step_index)
                          × (f.payload
                              ≡ ("text", Value.text text)
                                ∷ ("severity", Value.text severity)
                                ∷ ("finding_id", Value.text id)
                                ∷ [])))
                    _ _
                    (Ensures-emit_quiet bus sid "finding" s.current_step_index _ none quiet
                      (λ u v p m.
                        (Emitted-Holds sid s (before ++ e ∷ []) m refl p, (refl, refl, refl))))
                    λ f. Ensures-pure _ (λ v p. record {
                      called = e;
                      finding = f;
                      log = p.0.1;
                      session = p.0.0;
                      kinds = (marks.0, p.1.0);
                      steps = (marks.1, p.1.1);
                      id = id;
                      payload = p.1.2;
                      answer = refl;
                    })

  -- A finding of one of the three levels, told for one's own session, is always logged, if no
  -- handler on the bus raises: the call returns the finding's id, and the log has two events more,
  -- for the call and for the finding, both at the session's current step; also if the session is
  -- finalized, for its status is not looked at. With any other level the call raises and changes
  -- nothing.
  pub add_finding_lem :
      let (result, v) = add_finding bus sid text severity user call_id w in
      (is_one_of severity levels ≡ true
        → (out : Payload) × (result ≡ ok out) × Logged sid s text severity w out v)
      × (is_one_of severity levels ≡ false → (result ≡ err invalid_severity) × (v ≡ w))
  add_finding_lem = (
    λ known. rw (add_finding-eq known) (
        returns_of_Outcome (Logged sid s text severity w) _ _
          (log_finding-Logged.at w (stored, refl))),
    λ unknown. rw (refused_level unknown) (refl, refl),
  )
