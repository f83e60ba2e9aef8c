-- ===== src/Sessions/Transition/Holds.antt =====
-- What the steps of a session store and append, where the bus does not raise.
use mathlib.Core.Path.{subst}
use mathlib.Core.List.{append-nil}
use text.Mathlib.TextEquality.{eq_iff}
use superion.Prelude.{
  ℕ, String, ◌≡◌, ◌∙◌, sym, ap, refl, Option, none, some, List, [], ◌∷◌, ◌++◌, map, arith,
  string_eq, ltb, length, get_elem?, get_elem?-some, get_elem?-past, beq_refl, if◌then◌else◌,
}
use superion.Effect.{ok, index_error, ◌>>=◌}
use superion.Effect.Rules.{
  Ensures, Ensures-given, Ensures-bind, Ensures-pure, Ensures-if, Ensures-or_raise_some,
}
use superion.Dict.{get, put, get-put_self}
use superion.Domain.User.{User}
use superion.Domain.Session.{Session}
use superion.Value.{Payload}
use superion.Domain.Template.{Step, Template}
use superion.Domain.Event.{Event}
use superion.Events.Store.{events_of}
use superion.World.{World}
use superion.World.Bus.{EventBus}
use superion.Events.Append.Effects.{Emitted, Emitted-events_of}
use superion.Events.Append.Rules.{IsQuiet, Ensures-emit_quiet}
use superion.Events.Append.{require_session, get_by_id_for_technician}
use superion.Sessions.Repository.{save}
use superion.Sessions.Transition.{load_session_context, enter_step, step_payload, at_step}
use superion.Sessions.Transition.Context.{Loaded}

module _ (bus : EventBus) (w : World) (sid : String) (user : User) (s : Session) (t : Template)
    (l : Loaded sid user s t w) where
  pub load_session_context-eq : load_session_context sid user w ≡ (ok (s, t), w)
  unfolding load_session_context require_session get_by_id_for_technician ◌>>=◌
  load_session_context-eq = ground (
    arith,
    l.stored,
    l.owner,
    l.unfinished,
    l.assigned,
    l.planned,
    eq_iff s.technician_id user.id,
  )

-- The events that announce step `i`: one with the step in its payload, if there is such a step
abbrev announced : ℕ → Option Step → List (String × ℕ × Payload)
announced i none = []
announced i (some step) = ("step.entered", i, step_payload step) ∷ []

abbrev pub Entered : ℕ → Template → List Event → Type 0
Entered i t es =
    map (λ (e : Event). (e.type, e.step_index, e.payload)) es ≡ announced i (get_elem? t.steps i)

-- The session that is stored when the procedure has moved on to step `i`
abbrev pub moved : Session → Template → ℕ → Session
moved s t i = if ltb i (length t.steps) then at_step s i else s

-- The caller's session is stored as `s`, and its log is `es`.
abbrev pub Holds : String → Session → List Event → World → Type 0
Holds sid s es w = (get w.sessions sid ≡ some s) × (events_of w.event_store sid ≡ es)

-- The log is `es` and the event that announces the step, if the procedure goes on.
abbrev pub HoldsEntered : String → Session → Template → ℕ → List Event → World → Type 0
HoldsEntered sid s t i es w =
    (get w.sessions sid ≡ some (moved s t i))
    × ((entered : List Event) × (events_of w.event_store sid ≡ es ++ entered) × Entered i t entered)

Emitted-log :
    {w v : World} {e : Event} (sid : String)
    → Emitted w v e
    → e.session_id ≡ sid
    → events_of v.event_store sid ≡ events_of w.event_store sid ++ e ∷ []
Emitted-log {w} {v} {e} sid m p =
    subst (λ k. events_of v.event_store k ≡ events_of w.event_store k ++ e ∷ []) p
      (Emitted-events_of e.session_id m
        ∙ ap
            (λ b.
              if b
              then events_of w.event_store e.session_id ++ e ∷ []
              else events_of w.event_store e.session_id)
            (beq_refl e.session_id))

pub Emitted-Holds :
    {w v : World} {e : Event} (sid : String) (s : Session) (es : List Event)
    → Emitted w v e
    → e.session_id ≡ sid
    → Holds sid s es w
    → Holds sid s (es ++ e ∷ []) v
Emitted-Holds {e} sid s es m p h = (
  ap (λ d. get d sid) m.others.sessions ∙ h.0,
  Emitted-log sid m p ∙ ap (λ (xs : List Event). xs ++ e ∷ []) h.1,
)

module _ (bus : EventBus) (quiet : IsQuiet bus) (sid : String) (s : Session) (t : Template)
    (named : s.id ≡ sid) where
  pub save-Holds :
      (i : ℕ) (es : List Event)
      → Ensures (Holds sid s es) (save (at_step s i)) (λ _. Holds sid (at_step s i) es) (λ _. ⊥)
  unfolding save
  save-Holds i es = record {
    at = λ w h. (
      subst (λ k. get (put w.sessions s.id (at_step s i)) k ≡ some (at_step s i)) named
          (get-put_self w.sessions s.id (at_step s i)),
      h.1,
    );
  }

  -- `enter_step` returns, stores the session at its new step and appends its one event.
  pub enter_step-Holds :
      (i : ℕ) (es : List Event)
      → Ensures
          (Holds sid s es)
          (enter_step bus sid s t i)
          (λ _. HoldsEntered sid s t i es)
          (λ _. ⊥)
  unfolding enter_step
  enter_step-Holds i es =
      Ensures-if (ltb i (length t.steps)) _ _
        (λ more.
          Ensures-bind (λ _. Holds sid (at_step s i) es) _ _ (save-Holds i es)
            λ _.
              Ensures-bind
                (λ step w. Holds sid (at_step s i) es w × (get_elem? t.steps i ≡ some step)) _ _
                (Ensures-or_raise_some (get_elem? t.steps i) index_error
                  (get_elem?-some t.steps i (ground arith)).0
                  (get_elem?-some t.steps i (ground arith)).1
                  (λ w p. (p, (get_elem?-some t.steps i (ground arith)).1)))
                λ step. Ensures-given λ at_i.
                  Ensures-bind (λ _. HoldsEntered sid s t i es) _ _
                    (Ensures-emit_quiet bus sid "step.entered" i (step_payload step) none quiet
                      λ w v p m. rw more (
                        let h = Emitted-Holds sid (at_step s i) es m refl p in
                        (h.0, (_ ∷ [], h.1, ap (announced i) (sym at_i)))))
                    λ _. Ensures-pure tt (λ w p. p))
        (λ last. Ensures-pure tt (λ w p. rw last (
          p.0,
          (
            [],
            p.1 ∙ sym (append-nil es),
            ap (announced i) (sym (get_elem?-past t.steps i (ground arith))),
          ),
        )))

-- An event of the log: it has the number `n`, the type, the step and the payload.
pub record Marks (type : String) (i n : ℕ) (payload : Payload) (e : Event) : Type 0 where
  pub seq : e.seq ≡ n
  pub kind : e.type ≡ type
  pub step : e.step_index ≡ i
  pub content : e.payload ≡ payload
