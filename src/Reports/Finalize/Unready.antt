-- ===== src/Reports/Finalize/Unready.antt =====
-- When a session is not finalized.
use text.Mathlib.TextEquality.{eq_iff}
use superion.Prelude.{
  ℕ, ◌+◌, ◌-◌, ◌<◌, String, ◌≡◌, ◌≢◌, ◌∙◌, sym, ap, refl, Bool, true, false, Option, none, some,
  List, [], ◌∷◌, arith, nat_eq, string_eq, ◌==◌, length, get_elem?, take, Bool-cases, inl, inr,
  zero, suc,
}
use superion.Effect.{Error, Result, ok, err, ◌>>=◌}
use superion.Dict.{get}
use superion.Domain.User.{User}
use superion.Domain.Session.{Session}
use superion.Domain.Template.{Template}
use superion.Domain.Event.{Event}
use superion.Domain.Report.{Content, Report, report_finalized}
use superion.Events.Store.{events_of}
use superion.Events.Store.Invariant.{IsLog}
use superion.Events.Store.Pages.{list_since-eq-drop}
use superion.World.{World}
use superion.World.Bus.{EventBus}
use superion.Sessions.Transition.{requires_photo}
use superion.Sessions.Transition.Context.{Loaded}
use superion.Sessions.Transition.Holds.{load_session_context-eq}
use superion.Reports.Builder.{Python, int_or}
use superion.Reports.Live.{report_of, is_closed, ensure_report}
use superion.Reports.Finalize.{names, completes, check_completed, finalize_body}
use superion.Reports.Finalize.Refusals.{last_step_done}

-- A session that can be finalized: it stands at its last step, one of the first 500 events of its
-- log completes that step, and its report, if there is one, is not finalized.
pub record IsReady (py : Python) (w : World) (sid : String) (s : Session) (t : Template)
    : Type 0 where
  pub last : s.current_step_index + 1 ≡ length t.steps
  pub place : ℕ
  pub early : place < 500
  pub event : Event
  pub listed : get_elem? (events_of w.event_store sid) place ≡ some event
  pub kind : event.type ≡ "step.completed"
  pub step : int_or py event.step_index (get event.payload "index") ≡ ok (length t.steps - 1)
  pub unclosed : (r : Report) → report_of w sid ≡ some r → is_closed r.status ≡ false

module _ (py : Python) (last : ℕ) where
  -- An event at a place of a list that completes the step
  abbrev Completion : List Event → Type 0
  Completion es =
      (i : ℕ) × (e : Event) × (get_elem? es i ≡ some e)
      × (e.type ≡ "step.completed")
      × (int_or py e.step_index (get e.payload "index") ≡ ok last)

  Completion-names :
      (e : Event) (es : List Event) (rest : Result Bool) (r : Result ℕ)
      → e.type ≡ "step.completed"
      → int_or py e.step_index (get e.payload "index") ≡ r
      → (rest ≡ ok true → Completion (e ∷ es))
      → names last r rest ≡ ok true
      → Completion (e ∷ es)
  Completion-names e es rest (err x) kind eq later h = absurd (ground arith)
  Completion-names e es rest (ok i) kind eq later h = elim (Bool-cases (i == last)) [
    | inl same ↦ (zero, e, refl, kind, eq ∙ ap ok (ground (arith, same)))
    | inr other ↦ later (ground (arith, other))
  ]

  completes-Completion : (es : List Event) → completes py last es ≡ ok true → Completion es
  unfolding completes
  completes-Completion [] h = absurd (ground arith)
  completes-Completion (e ∷ es) h =
      let later : completes py last es ≡ ok true → Completion (e ∷ es) =
        λ k. let (i, x, at, kind, step) = completes-Completion es k in (suc i, x, at, kind, step) in
      elim (Bool-cases (e.type == "step.completed")) [
        | inl same ↦
            Completion-names e es (completes py last es) _ ((eq_iff e.type "step.completed").0 same)
              refl later (ground (arith, same))
        | inr other ↦ later (ground (arith, other))
      ]

get_elem?-take_all :
    {A : Type 0} (xs : List A) (n i : ℕ) (x : A)
    → get_elem? (take n xs) i ≡ some x
    → (i < n) × (get_elem? xs i ≡ some x)
get_elem?-take_all [] zero i x h = absurd (ground arith)
get_elem?-take_all [] (suc n) i x h = absurd (ground arith)
get_elem?-take_all (y ∷ xs) zero i x h = absurd (ground arith)
get_elem?-take_all (y ∷ xs) (suc n) zero x h = (omega arith, h)
get_elem?-take_all (y ∷ xs) (suc n) (suc i) x h =
    let (a, b) = get_elem?-take_all xs n i x h in (omega arith, b)

module _ (py : Python) (bus : EventBus) (render : Content → Result (List ℕ × String))
    (sign : String → String) (ttl : ℕ) (w : World) (sid : String) (user : User) (s : Session)
    (t : Template) (log : IsLog w.event_store) (l : Loaded sid user s t w) where
  ready :
      s.current_step_index + 1 ≡ length t.steps
      → last_step_done py w sid t ≡ ok true
      → ((r : Report) → report_of w sid ≡ some r → is_closed r.status ≡ false)
      → IsReady py w sid s t
  ready last done unclosed =
      let (i, e, at, kind, step) =
        completes-Completion py (length t.steps - 1) (take 500 (events_of w.event_store sid)) (
          ap (completes py (length t.steps - 1))
            (sym (list_since-eq-drop w.event_store sid 0 500 log))
          ∙ done) in
      let (early, listed) = get_elem?-take_all (events_of w.event_store sid) 500 i e at in
      record {
        last = last;
        place = i;
        early = early;
        event = e;
        listed = listed;
        kind = kind;
        step = step;
        unclosed = unclosed;
      }

  abbrev Refused : Type 0
  Refused = (e : Error) × (finalize_body py bus render sign ttl sid user w ≡ (err e, w))

  not_last : s.current_step_index + 1 ≢ length t.steps → Refused
  unfolding finalize_body check_completed ◌>>=◌
  not_last h = (requires_photo, ground (arith, load_session_context-eq bus w sid user s t l))

  not_completed :
      s.current_step_index + 1 ≡ length t.steps → last_step_done py w sid t ≡ ok false → Refused
  unfolding finalize_body check_completed ◌>>=◌
  not_completed e h = (requires_photo, ground (arith, load_session_context-eq bus w sid user s t l))

  unreadable :
      (x : Error)
      → s.current_step_index + 1 ≡ length t.steps
      → last_step_done py w sid t ≡ err x
      → Refused
  unfolding finalize_body check_completed ◌>>=◌
  unreadable x e h = (x, ground (arith, load_session_context-eq bus w sid user s t l))

  closed_report :
      (r : Report)
      → s.current_step_index + 1 ≡ length t.steps
      → last_step_done py w sid t ≡ ok true
      → report_of w sid ≡ some r
      → is_closed r.status ≡ true
      → Refused
  unfolding finalize_body check_completed ensure_report ◌>>=◌
  closed_report r e h found closed =
      (report_finalized, ground (arith, load_session_context-eq bus w sid user s t l))

  -- Where the session is at its last step and that step is completed early enough, only the report is
  -- left.
  refused_report :
      s.current_step_index + 1 ≡ length t.steps
      → last_step_done py w sid t ≡ ok true
      → ¬ IsReady py w sid s t
      → (o : Option Report) → report_of w sid ≡ o
      → Refused
  refused_report last done unready none missing =
      absurd (unready (ready last done (λ r found. absurd (ground (arith, missing, found)))))
  refused_report last done unready (some r) there = elim (Bool-cases (is_closed r.status)) [
    | inl closed ↦ closed_report r last done there closed
    | inr draft ↦
        absurd (unready (ready last done (λ u found. ground (arith, there, found, draft))))
  ]

  refused_check :
      s.current_step_index + 1 ≡ length t.steps
      → ¬ IsReady py w sid s t
      → (r : Result Bool) → last_step_done py w sid t ≡ r
      → Refused
  refused_check last unready (err x) eq = unreadable x last eq
  refused_check last unready (ok false) eq = not_completed last eq
  refused_check last unready (ok true) eq = refused_report last eq unready _ refl

  -- A call for one's own unfinished session that is not ready raises and changes nothing, if the
  -- events of its log are numbered without a gap: it is ready if it stands at its last step, one of
  -- the first 500 events of its log completes that step, and it has no finalized report.
  pub finalize_body_refuses :
      ¬ IsReady py w sid s t
      → (e : Error) × (finalize_body py bus render sign ttl sid user w ≡ (err e, w))
  finalize_body_refuses unready = elim (Bool-cases (s.current_step_index + 1 == length t.steps)) [
    | inl last ↦ refused_check (ground (arith, last)) unready _ refl
    | inr early ↦ not_last (λ e. absurd (ground (arith, e, early)))
  ]
