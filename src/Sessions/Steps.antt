-- ===== src/Sessions/Steps.antt =====
-- Every use case of a session, as a step from one well-formed world to a later one, whether it
-- returns or raises.
use superion.Prelude.{
  arith, ltb, length, get_elem?, string_eq, ℕ, ◌+◌, String, ◌≡◌, ◌∙◌, ap, false, Option, none, some,
}
use superion.Effect.{ok, index_error, Exec, pure, ◌>>=◌}
use superion.Effect.Rules.{
  Ensures-weaken, Ensures-strengthen, Ensures, Ensures-bind, Ensures-pure, Ensures-lift,
  Ensures-gets, Ensures-or_raise, Ensures-if, Ensures-raise_if,
}
use superion.Dict.{get}
use superion.Value.{Payload}
use superion.Domain.User.{User}
use superion.Domain.Session
use superion.Domain.Session.{Session, SessionStatus, is_finalized, already_finalized}
use superion.Domain.Template.{Template, is_in}
use superion.World.{World}
use superion.World.Bus.{EventBus}
use superion.Events.Append.{emit_system_event, require_session}
use superion.Events.Append
use superion.Events.Append.Rules.{Ensures-append_new, Ensures-emit, Ensures-require_session}
use superion.Sessions.Repository.{save}
use superion.Sessions.History.{After, After-trans, Emitted-After, Later, save-After}
use superion.Sessions.Pause
use superion.Sessions.Transition.{
  at_step, completed_payload, skipped_payload, cannot_skip, enter_step, mark_step_complete,
  skip_step,
}
use superion.Sessions.Transition.Context.{Loaded, Ensures-load_session_context, Ensures-photo_gate}

pause-Later : (s t : Session) → Session.pause s ≡ ok t → Later s t
unfolding Session.pause
pause-Later s t h = ground arith

resume-Later : (s t : Session) → Session.resume s ≡ ok t → Later s t
unfolding Session.resume
resume-Later s t h = ground arith

-- The stored session in a world later than `w`
abbrev Stored : World → String → Session → World → Type 0
Stored w sid s v = After w v × (get v.sessions sid ≡ some s)

mark-Later : (s : Session) (i : ℕ) → is_finalized s.status ≡ false → Later s (at_step s i)
mark-Later s i h = ground arith

-- The action leads from worlds later than `w` to worlds later than `w`.
abbrev pub Keeps : {A : Type 0} → World → Exec World A → Type 0
Keeps w m = Ensures (After w) m (λ _. After w) (After w)

module _ {w : World} where
  Keeps-pure : {A : Type 0} (a : A) → Keeps w (pure a)
  Keeps-pure a = Ensures-pure a (λ s p. p)

  Keeps-bind :
      {A B : Type 0} (m : Exec World A) (f : A → Exec World B)
      → Keeps w m
      → ((a : A) → Keeps w (f a))
      → Keeps w (m >>= f)
  Keeps-bind m f = Ensures-bind (λ _. After w) m f

  pub Keeps-emit :
      (bus : EventBus) (session_id event_type : String) (step_index : ℕ) (payload : Payload)
      (event_id : Option String)
      → Keeps w (emit_system_event bus session_id event_type step_index payload event_id)
  Keeps-emit bus session_id event_type step_index payload event_id =
      Ensures-emit bus session_id event_type step_index payload event_id (λ v u a m. (
        After-trans a (Emitted-After a.well_formed m),
        After-trans a (Emitted-After a.well_formed m),
      ))

  Ensures-save :
      (sid : String) (s t : Session)
      → Ensures (λ v. Stored w sid s v × Later s t) (save t) (λ _. After w) (After w)
  unfolding save
  Ensures-save sid s t = record {
    at = λ v p. After-trans p.0.0 (save-After v sid s t p.0.0.well_formed p.0.1 p.1);
  }

  pub require_session-Stored :
      (sid : String) (user : User)
      → Ensures (After w) (require_session sid user) (λ s. Stored w sid s) (After w)
  require_session-Stored sid user =
      Ensures-weaken (λ s v h. (h.0, h.1)) (λ v h. h) (Ensures-require_session sid user)

ruleset keeps_rules = (Keeps-pure, Keeps-bind, Keeps-emit)

module _ (bus : EventBus) (w : World) (sid : String) (user : User) where
  -- Pausing only appends events and moves the caller's session on.
  pub pause-After :
      (reason : String) (event_id : Option String)
      → Keeps w (Pause.pause bus sid user reason event_id)
  unfolding Pause.pause
  pause-After reason event_id =
      Ensures-bind (λ s. Stored w sid s) _ _ (require_session-Stored sid user)
        λ s.
          Ensures-bind (λ t v. Stored w sid s v × Later s t) _ _
            (Ensures-lift (Session.pause s) (λ v t e p. (p, pause-Later s t e)) (λ v p. p.0))
            λ t.
              Ensures-bind (λ _. After w) (save t) _ (Ensures-save sid s t)
                (λ _. search keeps_rules)

  -- So does resuming.
  pub resume-After :
      (reason : String) (event_id : Option String)
      → Keeps w (Pause.resume bus sid user reason event_id)
  unfolding Pause.resume
  resume-After reason event_id =
      Ensures-bind (λ s. Stored w sid s) _ _ (require_session-Stored sid user)
        λ s.
          Ensures-bind (λ t v. Stored w sid s v × Later s t) _ _
            (Ensures-lift (Session.resume s) (λ v t e p. (p, resume-Later s t e)) (λ v p. p.0))
            λ t.
              Ensures-bind (λ _. After w) (save t) _ (Ensures-save sid s t)
                (λ _. search keeps_rules)

  abbrev InStep : Session × Template → World → Type 0
  InStep c v = After w v × Loaded sid user c.0 c.1 v

  enter_step-After :
      (s : Session) (t : Template) (i : ℕ)
      → Ensures
          (λ v. Stored w sid s v × (is_finalized s.status ≡ false))
          (enter_step bus sid s t i)
          (λ _. After w)
          (After w)
  unfolding enter_step
  enter_step-After s t i =
      Ensures-if (ltb i (length t.steps)) _ _
        (λ _.
          Ensures-bind (λ _. After w) _ _
            (Ensures-strengthen (λ v p. (p.0, mark-Later s i p.1))
              (Ensures-save sid s (at_step s i)))
            λ _.
              Ensures-bind (λ _. After w) _ _
                (Ensures-or_raise (get_elem? t.steps i) index_error (λ v a e p. p) (λ v p. p))
                λ step. search keeps_rules)
        (λ _. Ensures-pure tt (λ v p. p.0.0))

  emit-InStep :
      (c : Session × Template) (i : ℕ) (type : String) (payload : Payload)
      (event_id : Option String)
      → Ensures
          (InStep c)
          (emit_system_event bus sid type i payload event_id)
          (λ e v. Stored w sid c.0 v × (is_finalized c.0.status ≡ false))
          (After w)
  emit-InStep c i type payload event_id = Ensures-emit bus sid type i payload event_id λ v u p m. (
    (
      (
        After-trans p.0 (Emitted-After p.0.well_formed m),
        ap (λ d. get d sid) m.others.sessions ∙ p.1.stored,
      ),
      p.1.unfinished,
    ),
    After-trans p.0 (Emitted-After p.0.well_formed m),
  )

  -- So does completing a step, photo gate and following step included.
  pub mark_step_complete-After :
      (i : ℕ) (by : String) (event_id : Option String)
      → Keeps w (mark_step_complete bus sid i user by event_id)
  unfolding mark_step_complete
  mark_step_complete-After i by event_id =
      Ensures-bind InStep _ _ (Ensures-load_session_context (After w) sid user) λ c.
        Ensures-bind (λ _. InStep c) _ _
          (Ensures-weaken (λ _ v h. h.0) (λ v h. h.0) (Ensures-photo_gate (InStep c) sid i c.1))
          λ _.
            Ensures-bind (λ e v. Stored w sid c.0 v × (is_finalized c.0.status ≡ false)) _ _
              (emit-InStep c i "step.completed" (completed_payload i by) event_id)
              λ e.
                Ensures-bind (λ _. After w) _ _ (enter_step-After c.0 c.1 (i + 1))
                  λ _. Ensures-pure e.seq (λ v p. p)

  -- So does skipping a step.
  pub skip_step-After :
      (i : ℕ) (reason : String) (event_id : Option String)
      → Keeps w (skip_step bus sid i reason user event_id)
  unfolding skip_step
  skip_step-After i reason event_id =
      Ensures-bind InStep _ _ (Ensures-load_session_context (After w) sid user) λ c.
        Ensures-bind (λ _. InStep c) _ _
          (Ensures-raise_if (is_in i c.1.critical_step_indices) cannot_skip (λ v e p. p)
            (λ v p. p.0))
          λ _.
            Ensures-bind (λ e v. Stored w sid c.0 v × (is_finalized c.0.status ≡ false)) _ _
              (emit-InStep c i "step.skipped" (skipped_payload i reason) event_id)
              λ e.
                Ensures-bind (λ _. After w) _ _
                  (Ensures-if (ltb (i + 1) (length c.1.steps)) _ _
                    (λ _.
                      Ensures-strengthen (λ v p. (p.0, mark-Later c.0 (i + 1) p.1))
                        (Ensures-save sid c.0 (at_step c.0 (i + 1))))
                    (λ _. Ensures-pure tt (λ v p. p.0.0)))
                  λ _. Ensures-pure e.seq (λ v p. p)

  ticked-After : {v : World} (n : ℕ) → After w v → After w (record v { ticks = n })
  ticked-After n a = record {
    well_formed = record { log = a.well_formed.log; keyed = a.well_formed.keyed };
    extends = a.extends;
    evolves = a.evolves;
    origin = a.origin;
    work_orders = a.work_orders;
    templates = a.templates;
    uuid = a.uuid;
  }

  -- So does recording an event for a client.
  pub append-After :
      (event_id type : String) (i : ℕ) (payload : Payload) (ws_type : Option String)
      → Keeps w (Append.execute bus sid event_id type i payload user ws_type)
  unfolding Append.execute
  append-After event_id type i payload ws_type =
      Ensures-bind (λ s. Stored w sid s) _ _ (require_session-Stored sid user)
        λ s.
          Ensures-bind (λ _. After w) _ _
            (Ensures-raise_if (is_finalized s.status) already_finalized (λ v e p. p.0) (λ v p. p.0))
            λ _.
              Ensures-bind (λ _. After w) _ _ (Ensures-gets _ (λ v p. p))
                (elim [
                  | some e ↦ Ensures-pure e.seq (λ v p. p)
                  | none ↦
                      Ensures-append_new bus sid event_id type i payload ws_type (λ v p. p)
                        (λ v u e p a b c m. (
                          After-trans p (Emitted-After p.well_formed m),
                          After-trans p (Emitted-After p.well_formed m),
                        ))
                        (λ v n p. ticked-After n p)
                ])
