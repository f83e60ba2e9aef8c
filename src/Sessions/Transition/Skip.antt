-- ===== src/Sessions/Transition/Skip.antt =====
-- `skip_step`: when a step may be skipped, and what that does.
use superion.Prelude.{
  ℕ, ◌+◌, String, ◌≡◌, ◌∙◌, ap, refl, true, false, Option, some, List, [], ◌∷◌, ◌++◌, arith,
  string_eq, ltb, length, if◌then◌else◌,
}
use superion.Effect.{ok, err, Exec, pure, ◌>>=◌, ◌>>◌}
use superion.Effect.Rules.{
  Ensures, Ensures-bind, Ensures-pure, Ensures-given, Ensures-if, returns_of_Outcome,
}
use superion.Dict.{get}
use superion.Domain.User.{User}
use superion.Domain.Session.{Session}
use superion.Domain.Template.{Template, is_in}
use superion.Domain.Event.{Event}
use superion.Events.Store.{events_of, next_seq}
use superion.World.{World}
use superion.World.Bus.{EventBus}
use superion.Events.Append.Rules.{IsQuiet, Ensures-emit_quiet}
use superion.Events.Append.{emit_system_event}
use superion.Sessions.Repository.{save}
use superion.Sessions.Transition.{skipped_payload, skip_step, at_step, cannot_skip}
use superion.Sessions.Transition.Context.{Loaded}
use superion.Sessions.Transition.Holds.{
  load_session_context-eq, moved, Holds, Emitted-Holds, save-Holds, Marks,
}

module _ (bus : EventBus) (w : World) (sid : String) (user : User) (s : Session) (t : Template)
    (l : Loaded sid user s t w) where
  -- A critical step cannot be skipped: the call raises, and nothing changes.
  skip_critical :
      (i : ℕ) (reason : String) (event_id : Option String)
      → is_in i t.critical_step_indices ≡ true
      → skip_step bus sid i reason user event_id w ≡ (err cannot_skip, w)
  unfolding skip_step ◌>>=◌
  skip_critical i reason event_id critical =
      ground (arith, load_session_context-eq bus w sid user s t l)

-- The world behind a skipped step
pub record Skipped (sid : String) (s : Session) (t : Template) (i : ℕ) (reason : String) (w : World)
    (n : ℕ) (v : World) : Type 0 where
  pub number : n ≡ next_seq w.event_store sid
  pub session : get v.sessions sid ≡ some (moved s t (i + 1))
  pub event : Event
  pub log : events_of v.event_store sid ≡ events_of w.event_store sid ++ event ∷ []
  pub marks : Marks "step.skipped" i (next_seq w.event_store sid) (skipped_payload i reason) event

module _ (bus : EventBus) (quiet : IsQuiet bus) (w : World) (sid : String) (user : User)
    (s : Session) (t : Template) (l : Loaded sid user s t w) (named : s.id ≡ sid) where
  -- The rest of `skip_step` behind its gate
  abbrev skip_tail : ℕ → String → Option String → Exec World ℕ
  skip_tail i reason event_id =
      emit_system_event bus sid "step.skipped" i (skipped_payload i reason) event_id >>= λ skipped.
      (if ltb (i + 1) (length t.steps) then save (at_step s (i + 1)) else pure tt)
      >> pure skipped.seq

  skip-eq-tail :
      (i : ℕ) (reason : String) (event_id : Option String)
      → is_in i t.critical_step_indices ≡ false
      → skip_step bus sid i reason user event_id w ≡ skip_tail i reason event_id w
  unfolding skip_step ◌>>=◌
  skip-eq-tail i reason event_id free = ground (arith, load_session_context-eq bus w sid user s t l)

  move-Holds :
      (i : ℕ) (es : List Event)
      → Ensures
          (Holds sid s es)
          (if ltb i (length t.steps) then save (at_step s i) else pure tt)
          (λ _. Holds sid (moved s t i) es)
          (λ _. ⊥)
  move-Holds i es =
      Ensures-if (ltb i (length t.steps)) _ _
        (λ more. rw more (save-Holds bus quiet sid s t named i es))
        (λ last. rw last (Ensures-pure tt (λ v p. p)))

  skip_tail-Skipped :
      (i : ℕ) (reason : String) (event_id : Option String)
      → Ensures (λ u. u ≡ w) (skip_tail i reason event_id) (Skipped sid s t i reason w) (λ _. ⊥)
  skip_tail-Skipped i reason event_id =
      Ensures-bind
        (λ e u.
          Holds sid s (events_of w.event_store sid ++ e ∷ []) u
          × Marks "step.skipped" i (next_seq w.event_store sid) (skipped_payload i reason) e)
        _ _
        (Ensures-emit_quiet bus sid "step.skipped" i (skipped_payload i reason) event_id quiet
          λ u v p m. (
            Emitted-Holds sid s (events_of w.event_store sid) m refl (
              ap (λ x. get x.sessions sid) p ∙ l.stored,
              ap (λ x. events_of x.event_store sid) p,
            ),
            record {
              seq = ap (λ x. next_seq x.event_store sid) p;
              kind = refl;
              step = refl;
              content = refl;
            },
          ))
        λ e. Ensures-given λ marks.
          Ensures-bind (λ _. Holds sid (moved s t (i + 1)) (events_of w.event_store sid ++ e ∷ []))
            _ _ (move-Holds (i + 1) (events_of w.event_store sid ++ e ∷ []))
            λ _. Ensures-pure e.seq (λ v p. record {
              number = marks.seq;
              session = p.0;
              event = e;
              log = p.1;
              marks = marks;
            })

  -- On a bus whose handlers never raise, for one's own unfinished session whose order and template
  -- are there: a critical step cannot be skipped: `skip_step` raises and nothing changes. Any other
  -- number is accepted, whatever the session's current step is: the call returns, the log has one
  -- event more, that of the skipped step, with the next number and its index and the reason as
  -- payload, and the session stands at the step after it, if there is one.
  pub skip_step_lem :
      (i : ℕ) (reason : String) (event_id : Option String)
      → let (r, v) = skip_step bus sid i reason user event_id w in
        (is_in i t.critical_step_indices ≡ true → (r ≡ err cannot_skip) × (v ≡ w))
        × (is_in i t.critical_step_indices ≡ false
            → (n : ℕ) × (r ≡ ok n) × Skipped sid s t i reason w n v)
  skip_step_lem i reason event_id = (
    λ critical. (
      ap (λ p. p.0) (skip_critical bus w sid user s t l i reason event_id critical),
      ap (λ p. p.1) (skip_critical bus w sid user s t l i reason event_id critical),
    ),
    λ free. rw (skip-eq-tail i reason event_id free) (
        returns_of_Outcome (Skipped sid s t i reason w) (skip_tail i reason event_id w).0
          (skip_tail i reason event_id w).1 ((skip_tail-Skipped i reason event_id).at w refl)),
  )
