-- ===== src/Events/Post/Idempotent.antt =====
-- A client that repeats a request with the same event id gets the same answer and changes nothing.
use text.Mathlib.TextEquality.{eq_iff}
use superion.Prelude.{
  ℕ, ◌+◌, String, ◌≡◌, ◌≢◌, ◌∙◌, sym, ap, refl, Option, none, some, arith, string_eq, ◌==◌, ltb,
  length, get_elem?,
}
use superion.Effect.{ok, index_error, pure, ◌>>=◌}
use superion.Effect.Rules.{
  Ensures, Ensures-bind, Ensures-pure, Ensures-raise, Ensures-lift, Ensures-gets, Ensures-or_raise,
  Ensures-if, Ensures-raise_if, ok_of_outcome, Ensures-weaken, Ensures-strengthen,
}
use superion.Dict.{get}
use superion.Value.{Value, Payload, is_text}
use superion.Domain.User.{User}
use superion.Domain.Session
use superion.Domain.Session.{Session, is_finalized, already_finalized}
use superion.Domain.Template.{Template, is_in}
use superion.Domain.Event.{Event}
use superion.Events.Store.{get_by_event_id}
use superion.World.{World}
use superion.World.Bus.{EventBus}
use superion.Events.Append
use superion.Events.Append.{emit_system_event, require_session}
use superion.Events.Append.Effects.{Emitted-found, Emitted-kept, chosen_id, emitted_event}
use superion.Events.Append.Rules.{Ensures-emit, Ensures-append_new, Ensures-require_session}
use superion.Sessions.Repository.{save}
use superion.Sessions.Pause
use superion.Sessions.Transition.{
  load_session_context, enter_step, mark_step_complete, skip_step, cannot_skip, at_step,
  completed_payload, skipped_payload,
}
use superion.Sessions.Transition.Context.{Ensures-load_session_context, Ensures-photo_gate}
use superion.Events.Post.{EventInput, dispatch, execute, unsupported, reason_text}

-- What an outcome says of a call that raised: nothing.
abbrev Any : World → Type 0
Any w = Unit

module _ (bus : EventBus) (str : Value → String) (source : ℕ → String) (sid id : String)
    (fresh : (k : ℕ) → source k ≢ id) (given : id ≢ "") where
  -- The identifiers come from `source`.
  abbrev Draws : World → Type 0
  Draws w = w.uuid ≡ source

  -- An event with the client's id and the number `n` is indexed.
  abbrev Recorded : ℕ → World → Type 0
  Recorded n w =
      Draws w × ((e : Event) × (get_by_event_id w.event_store sid id ≡ some e) × (e.seq ≡ n))

  chosen_here : (w : World) → chosen_id w (some id) ≡ id
  chosen_here w = ground (arith, eq_iff id "")

  -- The event with the client's id is recorded with its number,
  emit_first :
      (type : String) (i : ℕ) (payload : Payload)
      → Ensures Draws (emit_system_event bus sid type i payload (some id)) (λ e. Recorded e.seq) Any
  emit_first type i payload = Ensures-emit bus sid type i payload (some id) λ w v p m. (
    (
      m.others.uuid ∙ p,
      (
        emitted_event bus sid type i payload w (some id),
        Emitted-found sid id m refl (chosen_here w),
        refl,
      ),
    ),
    tt,
  )

  -- and an event with a drawn id does not hide it.
  emit_later :
      (n : ℕ) (type : String) (i : ℕ) (payload : Payload)
      → Ensures (Recorded n) (emit_system_event bus sid type i payload none) (λ _. Recorded n) Any
  emit_later n type i payload = Ensures-emit bus sid type i payload none λ w v p m. (
    (
      m.others.uuid ∙ p.0,
      (
        p.1.0,
        Emitted-kept sid id m (λ q. fresh w.drawn (ap (λ u. u w.drawn) (sym p.0) ∙ q)) ∙ p.1.1,
        p.1.2,
      ),
    ),
    tt,
  )

  save-Draws : (s : Session) → Ensures Draws (save s) (λ _. Draws) Any
  unfolding save
  save-Draws s = record { at = λ w p. p }

  save-Recorded : (n : ℕ) (s : Session) → Ensures (Recorded n) (save s) (λ _. Recorded n) Any
  unfolding save
  save-Recorded n s = record { at = λ w p. p }

  Draws-session : (user : User) → Ensures Draws (require_session sid user) (λ _. Draws) Any
  Draws-session user = Ensures-weaken (λ _ w h. h.0) (λ w h. tt) (Ensures-require_session sid user)

  Draws-context : (user : User) → Ensures Draws (load_session_context sid user) (λ _. Draws) Any
  Draws-context user =
      Ensures-weaken (λ _ w h. h.0) (λ w h. tt) (Ensures-load_session_context Draws sid user)

  pause-Recorded :
      (user : User) (reason : String)
      → Ensures Draws (Pause.pause bus sid user reason (some id)) Recorded Any
  unfolding Pause.pause
  pause-Recorded user reason =
      Ensures-bind (λ _. Draws) _ _ (Draws-session user)
        λ s.
          Ensures-bind (λ _. Draws) _ _ (Ensures-lift (Session.pause s) (λ w t e p. p) (λ w p. tt))
            λ t.
              Ensures-bind (λ _. Draws) _ _ (save-Draws t)
                λ _.
                  Ensures-bind (λ e. Recorded e.seq) _ _
                    (emit_first "session.paused" t.current_step_index _)
                    λ e.
                      Ensures-bind (λ _. Recorded e.seq) _ _
                        (emit_later e.seq "step.paused" t.current_step_index _)
                        λ _. Ensures-pure e.seq (λ w p. p)

  resume-Recorded :
      (user : User) (reason : String)
      → Ensures Draws (Pause.resume bus sid user reason (some id)) Recorded Any
  unfolding Pause.resume
  resume-Recorded user reason =
      Ensures-bind (λ _. Draws) _ _ (Draws-session user)
        λ s.
          Ensures-bind (λ _. Draws) _ _ (Ensures-lift (Session.resume s) (λ w t e p. p) (λ w p. tt))
            λ t.
              Ensures-bind (λ _. Draws) _ _ (save-Draws t)
                λ _.
                  Ensures-bind (λ e. Recorded e.seq) _ _
                    (emit_first "session.resumed" t.current_step_index _)
                    λ e. Ensures-pure e.seq (λ w p. p)

  enter_step-Recorded :
      (n : ℕ) (s : Session) (t : Template) (i : ℕ)
      → Ensures (Recorded n) (enter_step bus sid s t i) (λ _. Recorded n) Any
  unfolding enter_step
  enter_step-Recorded n s t i =
      Ensures-if (ltb i (length t.steps)) _ _
        (λ _.
          Ensures-bind (λ _. Recorded n) _ _ (save-Recorded n (at_step s i))
            λ _.
              Ensures-bind (λ _. Recorded n) _ _
                (Ensures-or_raise (get_elem? t.steps i) index_error (λ w a e p. p) (λ w p. tt))
                λ step.
                  Ensures-bind (λ _. Recorded n) _ _ (emit_later n "step.entered" i _)
                    λ _. Ensures-pure tt (λ w p. p))
        (λ _. Ensures-pure tt (λ w p. p))

  complete-Recorded :
      (user : User) (i : ℕ) (by : String)
      → Ensures Draws (mark_step_complete bus sid i user by (some id)) Recorded Any
  unfolding mark_step_complete
  complete-Recorded user i by =
      Ensures-bind (λ _. Draws) _ _ (Draws-context user)
        λ c.
          Ensures-bind (λ _. Draws) _ _
            (Ensures-weaken (λ _ w h. h.0) (λ w h. tt) (Ensures-photo_gate Draws sid i c.1))
            λ _.
              Ensures-bind (λ e. Recorded e.seq) _ _
                (emit_first "step.completed" i (completed_payload i by))
                λ e.
                  Ensures-bind (λ _. Recorded e.seq) _ _ (enter_step-Recorded e.seq c.0 c.1 (i + 1))
                    λ _. Ensures-pure e.seq (λ w p. p)

  skip-Recorded :
      (user : User) (i : ℕ) (reason : String)
      → Ensures Draws (skip_step bus sid i reason user (some id)) Recorded Any
  unfolding skip_step
  skip-Recorded user i reason =
      Ensures-bind (λ _. Draws) _ _ (Draws-context user)
        λ c.
          Ensures-bind (λ _. Draws) _ _
            (Ensures-raise_if (is_in i c.1.critical_step_indices) cannot_skip (λ w e p. p)
              (λ w p. tt))
            λ _.
              Ensures-bind (λ e. Recorded e.seq) _ _
                (emit_first "step.skipped" i (skipped_payload i reason))
                λ e.
                  Ensures-bind (λ _. Recorded e.seq) _ _
                    (Ensures-if (ltb (i + 1) (length c.1.steps)) _ _
                      (λ _. save-Recorded e.seq (at_step c.0 (i + 1)))
                      (λ _. Ensures-pure tt (λ w p. p)))
                    λ _. Ensures-pure e.seq (λ w p. p)

  -- What the look-up of the event id found, in the world of the look-up
  abbrev LookedUp : Option Event → World → Type 0
  LookedUp found w = Draws w × (found ≡ get_by_event_id w.event_store sid id)

  found-Recorded : (e : Event) → Ensures (LookedUp (some e)) (pure e.seq) Recorded Any
  found-Recorded e = Ensures-pure e.seq (λ w p. (p.0, (e, sym p.1, refl)))

  append-Recorded :
      (user : User) (type : String) (i : ℕ) (payload : Payload)
      → Ensures Draws (Append.execute bus sid id type i payload user none) Recorded Any
  unfolding Append.execute
  append-Recorded user type i payload =
      Ensures-bind (λ _. Draws) _ _ (Draws-session user)
        λ s.
          Ensures-bind (λ _. Draws) _ _
            (Ensures-raise_if (is_finalized s.status) already_finalized (λ w e p. p) (λ w p. tt))
            λ _. Ensures-bind LookedUp _ _ (Ensures-gets _ (λ w p. (p, refl))) (elim [
              | some e ↦ found-Recorded e
              | none ↦
                  Ensures-strengthen (λ w p. p.0)
                    (Ensures-append_new bus sid id type i payload none (λ w p. tt)
                      (λ w v e p a b c m.
                        ((m.others.uuid ∙ p, (e, Emitted-found sid id m a b, refl)), tt))
                      (λ w n p. p))
            ])

  module _ (body : EventInput) (same : body.event_id ≡ id) (user : User) where
    dispatch-Recorded : Ensures Draws (dispatch bus str sid body user) Recorded Any
    unfolding dispatch
    dispatch-Recorded = rw same (
        Ensures-if (body.type == "command") _ _
          (λ _.
            Ensures-if (is_text "pause" (get body.payload "command")) _ _
              (λ _. pause-Recorded user "user")
              (λ _.
                Ensures-if (is_text "resume" (get body.payload "command")) _ _
                  (λ _. resume-Recorded user "user") (λ _. Ensures-raise unsupported (λ w p. tt))))
          (λ _.
            Ensures-if (body.type == "step_advance") _ _
              (λ _. complete-Recorded user body.step_index "command")
              (λ _.
                Ensures-if (body.type == "step_skip") _ _
                  (λ _.
                    skip-Recorded user body.step_index
                      (reason_text str (get body.payload "reason")))
                  (λ _. append-Recorded user body.type body.step_index body.payload))))

    execute-Recorded : Ensures Draws (execute bus str sid body user) Recorded Any
    unfolding execute
    execute-Recorded =
        Ensures-bind LookedUp _ _
          (Ensures-gets _ (λ w p. (p, ap (get_by_event_id w.event_store sid) same)))
          (elim [
            | some e ↦ found-Recorded e
            | none ↦ Ensures-strengthen (λ w p. p.0) dispatch-Recorded
          ])

module _ (bus : EventBus) (str : Value → String) (sid : String) (body : EventInput)
    (user : User) where
  -- A recorded event id is answered from the index.
  recorded_answer :
      (n : ℕ) (w : World)
      → ((e : Event) × (get_by_event_id w.event_store sid body.event_id ≡ some e) × (e.seq ≡ n))
      → execute bus str sid body user w ≡ (ok n, w)
  unfolding execute ◌>>=◌
  recorded_answer n w (e, found, seq) = ground arith

  -- If a request with an event id that is not empty, and that `uuid4` never draws, was accepted with
  -- the number `n`, the same request sent again is accepted with the same number and changes
  -- nothing at all.
  pub execute_again :
      (w : World) (n : ℕ)
      → body.event_id ≢ ""
      → ((k : ℕ) → w.uuid k ≢ body.event_id)
      → (execute bus str sid body user w).0 ≡ ok n
      → let v = (execute bus str sid body user w).1 in execute bus str sid body user v ≡ (ok n, v)
  execute_again w n given fresh accepted =
      recorded_answer n (execute bus str sid body user w).1
        (ok_of_outcome (Recorded bus str w.uuid sid body.event_id fresh given) Any n
          (execute bus str sid body user w).0 (execute bus str sid body user w).1
          ((execute-Recorded bus str w.uuid sid body.event_id fresh given body refl user).at w refl)
          accepted).1
