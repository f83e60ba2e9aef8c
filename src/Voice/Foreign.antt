-- ===== src/Voice/Foreign.antt =====
-- A tool call for a session that is not the caller's.
use superion.Prelude.{
  ℕ, String, ◌≡◌, refl, ap, ◌∙◌, Bool, Option, none, some, string_eq, ◌==◌, if◌then◌else◌,
}
use superion.Effect.{Error, Result, ok, err, Exec, raise, ◌>>=◌}
use superion.Effect.Rules.{
  Outcome, Ensures, Ensures-bind, Ensures-if, Ensures-raise, Ensures-or_raise, Ensures-gets,
}
use superion.Value.{Value, Payload}
use superion.Domain.User.{User}
use superion.World.{World}
use superion.World.Bus.{EventBus}
use superion.World.Stable.{Stable, Stable-or_raise, Stable-lift, Stable-raise_if}
use superion.Events.Append.{require_session, get_by_id_for_technician, session_not_found}
use superion.Sessions.Transition.{load_session_context, skip_step}
use superion.Sessions.Current.{get_current_step}
use superion.Sessions.Pause.{pause}
use superion.Reports.Builder.{Python}
use superion.Voice.Tools.{
  add_finding, add_measurement, request_photo, complete_step, tell_current_step,
}
use superion.Voice.Query.{Retrieval, query_manual}
use superion.Voice.Dispatch.{execute_tool, run_tool}

module _ (w : World) where
  abbrev Here : World → Type 0
  Here v = v ≡ w

  -- The action raises, and changes nothing.
  abbrev Raises : {A : Type 0} → Exec World A → Type 0
  Raises m = Ensures Here m (λ _ _. ⊥) Here

  Raises-first :
      {A B : Type 0} (m : Exec World A) (f : A → Exec World B) → Raises m → Raises (m >>= f)
  Raises-first m f h = Ensures-bind (λ _ _. ⊥) m f h (λ a. record { at = λ s p. absurd p })

  Raises-then :
      {A B : Type 0} (m : Exec World A) (f : A → Exec World B)
      → Stable Here m
      → ((a : A) → Raises (f a))
      → Raises (m >>= f)
  Raises-then m f = Ensures-bind (λ _. Here) m f

  Raises-if :
      {A : Type 0} (b : Bool) (m n : Exec World A)
      → Raises m
      → Raises n
      → Raises (if b then m else n)
  Raises-if b m n h k = Ensures-if b m n (λ _. h) (λ _. k)

  Raises-raise : {A : Type 0} (e : Error) → Raises {A = A} (raise e)
  Raises-raise e = Ensures-raise e (λ v p. p)

  raised :
      {A : Type 0} (r : Result A) (v : World)
      → Outcome (λ _ _. ⊥) Here r v
      → (e : Error) × (r ≡ err e) × (v ≡ w)
  raised (ok a) v o = absurd o
  raised (err e) v o = (e, refl, o)

  module _ (sid : String) (user : User)
      (foreign : get_by_id_for_technician w sid user.id ≡ none) where
    absent : {A : Type 0} (o : Option A) (a : A) → o ≡ some a → o ≡ none → ⊥
    absent o a p q = cc

    require_session-Raises : Raises (require_session sid user)
    unfolding require_session
    require_session-Raises =
        Ensures-bind (λ o v. Here v × (o ≡ none)) _ _
          (Ensures-gets _
            (λ v p. (p, ap (λ x. get_by_id_for_technician x sid user.id) p ∙ foreign)))
          λ o. Ensures-or_raise o session_not_found (λ v s e p. absent o s e p.1) (λ v p. p.0)

    load_session_context-Raises : Raises (load_session_context sid user)
    unfolding load_session_context
    load_session_context-Raises = Raises-first _ _ require_session-Raises

    module _ (bus : EventBus) (py : Python) (float : Value → Result Value) (rag : Retrieval) where
      add_finding-Raises :
          (text severity : String) (call_id : Option String)
          → Raises (add_finding bus sid text severity user call_id)
      unfolding add_finding
      add_finding-Raises text severity call_id =
          Raises-then _ _ (Stable-raise_if _ _) (λ _. Raises-first _ _ require_session-Raises)

      add_measurement-Raises :
          (name : String) (value : Value) (unit : String) (call_id : Option String)
          → Raises (add_measurement bus sid name value unit user call_id)
      unfolding add_measurement
      add_measurement-Raises name value unit call_id = Raises-first _ _ require_session-Raises

      request_photo-Raises :
          (i : ℕ) (criteria : String) (call_id : Option String)
          → Raises (request_photo bus sid i criteria user call_id)
      unfolding request_photo
      request_photo-Raises i criteria call_id = Raises-first _ _ require_session-Raises

      complete_step-Raises :
          (i : Option ℕ) (call_id : Option String)
          → Raises (complete_step bus py sid i user call_id)
      unfolding complete_step
      complete_step-Raises i call_id = Raises-first _ _ require_session-Raises

      tell_current_step-Raises :
          (call_id : Option String) → Raises (tell_current_step bus py sid user call_id)
      unfolding tell_current_step get_current_step
      tell_current_step-Raises call_id =
          Raises-first _ _ (Raises-first _ _ load_session_context-Raises)

      skip_step-Raises : (i : ℕ) (reason : String) → Raises (skip_step bus sid i reason user none)
      unfolding skip_step
      skip_step-Raises i reason = Raises-first _ _ load_session_context-Raises

      pause-Raises : (reason : String) → Raises (pause bus sid user reason none)
      unfolding pause
      pause-Raises reason = Raises-first _ _ require_session-Raises

      query_manual-Raises :
          (question : String) (asset_id call_id : Option String)
          → Raises (query_manual bus rag sid question user asset_id call_id)
      unfolding query_manual
      query_manual-Raises question asset_id call_id = Raises-first _ _ require_session-Raises

      run_tool-Raises :
          (tool : String) (arguments : Payload) (call_id : Option String)
          → Raises (run_tool bus py float rag tool sid arguments user call_id)
      unfolding run_tool
      run_tool-Raises tool arguments call_id =
          Raises-if (tool == "query_manual") _ _ (query_manual-Raises _ _ call_id) (
            Raises-if (tool == "get_current_step") _ _ (tell_current_step-Raises call_id) (
              Raises-if (tool == "mark_step_complete") _ _
                (Raises-then _ _ (Stable-lift _) (λ i. complete_step-Raises i call_id))
                (Raises-if (tool == "request_evidence_photo") _ _
                  (Raises-then _ _ (Stable-or_raise _ _)
                    λ given. Raises-then _ _ (Stable-lift _) λ i. request_photo-Raises i _ call_id)
                  (Raises-if (tool == "add_finding") _ _ (add_finding-Raises _ _ call_id) (
                    Raises-if (tool == "add_measurement") _ _
                      (Raises-then _ _ (Stable-or_raise _ _) λ given.
                        Raises-then _ _ (Stable-lift _) λ value.
                          Raises-then _ _ (Stable-or_raise _ _)
                            λ unit. add_measurement-Raises _ value _ call_id)
                      (Raises-if (tool == "skip_step") _ _
                        (Raises-then _ _ (Stable-or_raise _ _) λ given.
                          Raises-then _ _ (Stable-lift _)
                            λ i. Raises-first _ _ (skip_step-Raises i _))
                        (Raises-if (tool == "pause_session") _ _
                          (Raises-first _ _ (pause-Raises "voice")) (Raises-raise _))))))))

      -- A tool call for a session that is not the caller's own raises and changes nothing, whatever
      -- the tool is.
      pub foreign_call :
          (tool : String) (arguments : Payload) (call_id : Option String)
          → let (result, v) = execute_tool bus py float rag tool sid arguments user call_id w in
            (e : Error) × (result ≡ err e) × (v ≡ w)
      unfolding execute_tool
      foreign_call tool arguments call_id = raised _ _ (
          (Raises-then _ _ (Stable-raise_if _ _) (λ _. run_tool-Raises tool arguments call_id)).at w
            refl)
