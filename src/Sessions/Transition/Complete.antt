-- ===== src/Sessions/Transition/Complete.antt =====
-- `mark_step_complete`: when a step may be completed, and what that does.
use superion.Prelude.{
  ℕ, ◌+◌, String, ◌≡◌, ◌∙◌, ap, refl, true, false, Option, some, List, [], ◌∷◌, ◌++◌, arith,
  string_eq, Bool-cases, inl, inr,
}
use superion.Effect.{ok, err, Exec, pure, ◌>>=◌, ◌>>◌}
use superion.Effect.Rules.{Ensures, Ensures-bind, Ensures-pure, Ensures-given, returns_of_Outcome}
use superion.Dict.{get}
use superion.Domain.User.{User}
use superion.Domain.Session.{Session}
use superion.Domain.Template.{Template, is_in}
use superion.Domain.Event.{Event}
use superion.Events.Store.{has_accepted_photo, events_of, next_seq}
use superion.World.{World}
use superion.World.Bus.{EventBus}
use superion.Events.Append.Rules.{IsQuiet, Ensures-emit_quiet}
use superion.Events.Append.{emit_system_event}
use superion.Sessions.Transition.{
  photo_gate, enter_step, completed_payload, mark_step_complete, requires_photo,
}
use superion.Sessions.Transition.Context.{Loaded}
use superion.Sessions.Transition.Holds.{
  load_session_context-eq, Entered, moved, Holds, HoldsEntered, Emitted-Holds, enter_step-Holds,
  Marks,
}

module _ (bus : EventBus) (w : World) (sid : String) (user : User) (s : Session) (t : Template)
    (l : Loaded sid user s t w) where
  -- A step that requires a photo and has no accepted one cannot be completed: the call raises, and
  -- nothing changes.
  complete_needs_photo :
      (i : ℕ) (by : String) (event_id : Option String)
      → is_in i t.photo_required_step_indices ≡ true
      → has_accepted_photo w.event_store sid i ≡ false
      → mark_step_complete bus sid i user by event_id w ≡ (err requires_photo, w)
  unfolding mark_step_complete photo_gate ◌>>=◌
  complete_needs_photo i by event_id required missing =
      ground (arith, load_session_context-eq bus w sid user s t l)

-- The world behind a completed step, for the number that the call returned
pub record Completed (sid : String) (s : Session) (t : Template) (i : ℕ) (by : String) (w : World)
    (n : ℕ) (v : World) : Type 0 where
  pub number : n ≡ next_seq w.event_store sid
  pub session : get v.sessions sid ≡ some (moved s t (i + 1))
  pub event : Event
  pub entered : List Event
  pub log : events_of v.event_store sid ≡ (events_of w.event_store sid ++ event ∷ []) ++ entered
  pub marks : Marks "step.completed" i (next_seq w.event_store sid) (completed_payload i by) event
  pub enters : Entered (i + 1) t entered

module _ (bus : EventBus) (quiet : IsQuiet bus) (w : World) (sid : String) (user : User)
    (s : Session) (t : Template) (l : Loaded sid user s t w) (named : s.id ≡ sid) where
  -- The rest of `mark_step_complete` behind its gate
  abbrev complete_tail : ℕ → String → Option String → Exec World ℕ
  complete_tail i by event_id =
      emit_system_event bus sid "step.completed" i (completed_payload i by) event_id
      >>= λ completed. enter_step bus sid s t (i + 1) >> pure completed.seq

  complete-eq-tail :
      (i : ℕ) (by : String) (event_id : Option String)
      → (is_in i t.photo_required_step_indices ≡ true
          → has_accepted_photo w.event_store sid i ≡ true)
      → mark_step_complete bus sid i user by event_id w ≡ complete_tail i by event_id w
  unfolding mark_step_complete photo_gate ◌>>=◌
  complete-eq-tail i by event_id gate = elim (Bool-cases (is_in i t.photo_required_step_indices)) [
    | inl required ↦ ground (arith, load_session_context-eq bus w sid user s t l, gate required)
    | inr free ↦ ground (arith, load_session_context-eq bus w sid user s t l)
  ]

  complete_tail-Completed :
      (i : ℕ) (by : String) (event_id : Option String)
      → Ensures (λ u. u ≡ w) (complete_tail i by event_id) (Completed sid s t i by w) (λ _. ⊥)
  complete_tail-Completed i by event_id =
      Ensures-bind
        (λ e u.
          Holds sid s (events_of w.event_store sid ++ e ∷ []) u
          × Marks "step.completed" i (next_seq w.event_store sid) (completed_payload i by) e)
        _ _
        (Ensures-emit_quiet bus sid "step.completed" i (completed_payload i by) event_id quiet
          λ u v p m. (
            Emitted-Holds sid s (events_of w.event_store sid) m refl (
              ap (λ x. get x.sessions sid) p ∙ l.stored,
              ap (λ x. events_of x.event_store sid) p,
            ),
            record {
              seq = ap (λ x. next_seq x.event_store sid) p;
              kind = refl;
              step = refl;
              content = refl;
            },
          ))
        λ e. Ensures-given λ marks.
          Ensures-bind (λ _. HoldsEntered sid s t (i + 1) (events_of w.event_store sid ++ e ∷ [])) _
            _
            (enter_step-Holds bus quiet sid s t named (i + 1)
              (events_of w.event_store sid ++ e ∷ []))
            λ _. Ensures-pure e.seq (λ v p. record {
              number = marks.seq;
              session = p.0;
              event = e;
              entered = p.1.0;
              log = p.1.1;
              marks = marks;
              enters = p.1.2;
            })

  -- On a bus whose handlers never raise, for one's own unfinished session whose order and template
  -- are there: a step that requires a photo and has no accepted one cannot be completed: the call
  -- raises and nothing changes. Any other number is accepted, whatever the session's current step is
  -- and whether the step was completed before: the call returns, the log has the event of the
  -- completed step, with the next number and its index and completer as payload, then that of the
  -- step after it, with its index and its contents as payload, if there is one, and the session
  -- stands at that step.
  pub mark_step_complete_lem :
      (i : ℕ) (by : String) (event_id : Option String)
      → let (r, v) = mark_step_complete bus sid i user by event_id w in
        (is_in i t.photo_required_step_indices ≡ true
          → has_accepted_photo w.event_store sid i ≡ false
          → (r ≡ err requires_photo) × (v ≡ w))
        × ((is_in i t.photo_required_step_indices ≡ true
              → has_accepted_photo w.event_store sid i ≡ true)
            → (n : ℕ) × (r ≡ ok n) × Completed sid s t i by w n v)
  mark_step_complete_lem i by event_id = (
    λ required missing. (
      ap (λ p. p.0) (complete_needs_photo bus w sid user s t l i by event_id required missing),
      ap (λ p. p.1) (complete_needs_photo bus w sid user s t l i by event_id required missing),
    ),
    λ gate. rw (complete-eq-tail i by event_id gate) (
        returns_of_Outcome (Completed sid s t i by w) (complete_tail i by event_id w).0
          (complete_tail i by event_id w).1 ((complete_tail-Completed i by event_id).at w refl)),
  )
