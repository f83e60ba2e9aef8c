-- ===== src/Reports/Finalize/Closing.antt =====
-- What the finalization writes, and that the PDF can be read back.
use superion.Prelude.{
  ℕ, ◌+◌, String, ◌≡◌, ◌∙◌, sym, ap, refl, true, false, none, some, List, [], ◌∷◌, ◌++◌, arith,
  string_eq, nat_eq, length, beq_refl, if◌then◌else◌,
}
use superion.Effect.{Result, ok, pure, ◌>>=◌}
use superion.Dict.{get, put, get-put_self}
use superion.Value.{Value, Payload}
use superion.Domain.User.{User}
use superion.Domain.Session.{Session, SessionStatus, finalize, is_finalized}
use superion.Domain.Template.{Template}
use superion.Domain.Event.{Event}
use superion.Domain.Report.{Content, Report, ReportStatus, mark_finalized}
use superion.Events.Store.{events_of}
use superion.Events.Append.{emit_system_event, event_to_ws_message}
use superion.Events.Append.Effects.{at_publish, emitted_event, emit_system_event-eq-publish}
use superion.Events.Append.Rules.{IsQuiet}
use superion.Sessions.Repository.{save}
use superion.Events.Store.Invariant.{events_of-record_event}
use superion.World.{World, now}
use superion.World.Bus.{EventBus, SameStores}
use superion.Sessions.Transition.Context.{Loaded}
use superion.Reports.Builder.{Python}
use superion.Reports.Live.{save_report, report_of, is_closed, build_content}
use superion.Reports.Live.Keeps.{state-build_content}
use superion.Reports.Live.Frozen.{IsAside}
use superion.Reports.Finalize.{FinalizeReportOutput, storage_key, close_session, finalize_body}
use superion.Reports.Finalize.Refusals.{last_step_done, finalize_body-eq}

-- The session as it is saved
abbrev pub finalized_session : World → Session → Session
finalized_session w s = record s {
  status = SessionStatus.finalized;
  ended_at = some (w.clock w.ticks);
}

-- The world that the content is built in
abbrev pub closing_world : World → Session → World
closing_world w s = record w {
  ticks = w.ticks + 1;
  sessions = put w.sessions s.id (finalized_session w s);
}

-- The report as it is saved
abbrev pub finalized_report : World → String → Report → Content → String → Report
finalized_report w sid r c sha = record r {
  status = ReportStatus.finalized;
  content_json = c;
  version = r.version + 1;
  pdf_storage_path = some (storage_key sid);
  sha256 = some sha;
  generated_at = some (w.clock w.ticks);
  finalized_at = some (w.clock w.ticks);
  updated_at = w.clock w.ticks;
}

report_of-cong :
    (v w : World) (sid : String)
    → v.reports ≡ w.reports
    → v.report_index ≡ w.report_index
    → report_of v sid ≡ report_of w sid
unfolding report_of
report_of-cong v w sid a b = rw (a, b) refl

pub pair_of : {A B : Type 0} (p : A × B) (a : A) (b : B) → p.0 ≡ a → p.1 ≡ b → p ≡ (a, b)
pair_of (x, y) a b h k = cc

module _ (py : Python) (bus : EventBus) (render : Content → Result (List ℕ × String))
    (sign : String → String) (ttl : ℕ) (w : World) (sid : String) (s : Session) (r : Report)
    (c : Content) (pdf : List ℕ) (sha : String) (unfinished : is_finalized s.status ≡ false)
    (draft : is_closed r.status ≡ false)
    (built : (build_content py sid (closing_world w s)).0 ≡ ok c)
    (rendered : render c ≡ ok (pdf, sha)) where
  -- The world in which the event is emitted
  abbrev pub written : World
  written = record (closing_world w s) {
    files = put w.files (storage_key sid) pdf;
    reports = put w.reports r.id (finalized_report w sid r c sha);
    report_index = put w.report_index r.session_id r.id;
  }

  abbrev pub answer : FinalizeReportOutput
  answer = record {
    session_id = sid;
    report_id = r.id;
    pdf_url = sign (storage_key sid);
    pdf_expires_at = w.clock w.ticks + ttl;
  }

  abbrev pub closed_payload : Payload
  closed_payload =
      ("report_id", Value.text r.id) ∷ ("pdf_url", Value.text (sign (storage_key sid))) ∷ []

  content-eq : build_content py sid (closing_world w s) ≡ (ok c, closing_world w s)
  content-eq =
      pair_of _ (ok c) (closing_world w s) built (state-build_content py sid (closing_world w s))

  finalize-eq : finalize s (w.clock w.ticks) ≡ ok (finalized_session w s)
  unfolding finalize
  finalize-eq = ground arith

  mark_finalized-eq :
      mark_finalized r (storage_key sid) sha (w.clock w.ticks) (w.clock w.ticks) c (w.clock w.ticks)
      ≡ ok (finalized_report w sid r c sha)
  unfolding mark_finalized
  mark_finalized-eq = ground arith

  close_session-eq :
      close_session py bus render sign ttl sid s r w
      ≡ (emit_system_event bus sid "session.closed" s.current_step_index closed_payload none
            >>= λ _. pure answer)
          written
  unfolding close_session now save save_report ◌>>=◌
  close_session-eq = ground (arith, content-eq, finalize-eq, mark_finalized-eq)

  abbrev closed_event : Event
  closed_event =
      emitted_event bus sid "session.closed" s.current_step_index closed_payload written none

  abbrev at_bus : World
  at_bus = at_publish bus sid "session.closed" s.current_step_index closed_payload written none

  -- The world behind the call
  abbrev pub closed_world : World
  closed_world = (bus.publish (event_to_ws_message closed_event) at_bus).1

  message_type : (event_to_ws_message closed_event).type ≡ "session.closed"
  unfolding event_to_ws_message
  message_type = refl

  close_session-eq-ok :
      IsQuiet bus → close_session py bus render sign ttl sid s r w ≡ (ok answer, closed_world)
  unfolding ◌>>=◌
  close_session-eq-ok quiet = ground (
    arith,
    close_session-eq,
    emit_system_event-eq-publish bus sid "session.closed" s.current_step_index closed_payload
        written none,
    quiet (event_to_ws_message closed_event) at_bus,
  )

  module _ (aside : IsAside bus "session.closed") (named : s.id ≡ sid)
      (mine : r.session_id ≡ sid) where
    published : SameStores at_bus closed_world
    published = (bus.publish-SameStores (event_to_ws_message closed_event)).at at_bus

    session_saved : get closed_world.sessions sid ≡ some (finalized_session w s)
    session_saved =
        ap (λ d. get d sid) published.sessions
        ∙ ap (λ k. get (put w.sessions s.id (finalized_session w s)) k) (sym named)
        ∙ get-put_self w.sessions s.id (finalized_session w s)

    report_at_bus : report_of at_bus sid ≡ some (finalized_report w sid r c sha)
    unfolding report_of
    report_at_bus =
        ap
          (λ k. elim (get (put w.report_index r.session_id r.id) k) [
            | none ↦ none
            | some id ↦ get (put w.reports r.id (finalized_report w sid r c sha)) id
          ])
          (sym mine)
        ∙ ap
            (λ o. elim o [
              | none ↦ none
              | some id ↦ get (put w.reports r.id (finalized_report w sid r c sha)) id
            ])
            (get-put_self w.report_index r.session_id r.id)
        ∙ get-put_self w.reports r.id (finalized_report w sid r c sha)

    report_saved : report_of closed_world sid ≡ some (finalized_report w sid r c sha)
    report_saved =
        report_of-cong closed_world at_bus sid
          (aside.reports (event_to_ws_message closed_event) at_bus message_type)
          (aside.report_index (event_to_ws_message closed_event) at_bus message_type)
        ∙ report_at_bus

    file_saved : get closed_world.files (storage_key sid) ≡ some pdf
    file_saved =
        ap (λ d. get d (storage_key sid))
          (aside.files (event_to_ws_message closed_event) at_bus message_type)
        ∙ get-put_self w.files (storage_key sid) pdf

    log_extended :
        events_of closed_world.event_store sid ≡ events_of w.event_store sid ++ closed_event ∷ []
    log_extended =
        ap (λ st. events_of st sid) published.event_store
        ∙ events_of-record_event w.event_store closed_event sid
        ∙ ap
            (λ b.
              if b
              then events_of w.event_store sid ++ closed_event ∷ []
              else events_of w.event_store sid)
            (beq_refl sid)

-- The world behind a finalized session: the session, its report, the file and the log
pub record Closed (w : World) (sid : String) (s : Session) (r : Report) (c : Content) (pdf : List ℕ)
    (sha : String) (v : World) : Type 0 where
  pub session : get v.sessions sid ≡ some (finalized_session w s)
  pub report : report_of v sid ≡ some (finalized_report w sid r c sha)
  pub file : get v.files (storage_key sid) ≡ some pdf
  pub event : Event
  pub kind : event.type ≡ "session.closed"
  pub log : events_of v.event_store sid ≡ events_of w.event_store sid ++ event ∷ []

module _ (py : Python) (bus : EventBus) (quiet : IsQuiet bus) (aside : IsAside bus "session.closed")
    (render : Content → Result (List ℕ × String)) (sign : String → String) (ttl : ℕ) (w : World)
    (sid : String) (user : User) (s : Session) (t : Template) (r : Report) (c : Content)
    (pdf : List ℕ) (sha : String) (l : Loaded sid user s t w) (named : s.id ≡ sid)
    (mine : r.session_id ≡ sid) (last : s.current_step_index + 1 ≡ length t.steps)
    (completed : last_step_done py w sid t ≡ ok true) (drafted : report_of w sid ≡ some r)
    (draft : is_closed r.status ≡ false)
    (built : (build_content py sid (closing_world w s)).0 ≡ ok c)
    (rendered : render c ≡ ok (pdf, sha)) where
  -- Finalizing one's own unfinished session returns, if it is at its last step, one of its first 500
  -- events completes that step, its report is a draft, its content can be built and rendered, and no
  -- handler on the bus raises or touches the reports and the files: then the session is finalized
  -- now; the report is finalized with the next version, and names the file that holds the PDF and its
  -- hash; and the log has one event more, `session.closed`.
  pub finalize_body_lem :
      let (result, v) = finalize_body py bus render sign ttl sid user w in
      (result
        ≡ ok (record {
          session_id = sid;
          report_id = r.id;
          pdf_url = sign (storage_key sid);
          pdf_expires_at = w.clock w.ticks + ttl;
        }))
      × Closed w sid s r c pdf sha v
  finalize_body_lem =
      rw
        (
          finalize_body-eq py bus render sign ttl w sid user s t l r last completed drafted draft,
          close_session-eq-ok py bus render sign ttl w sid s r c pdf sha l.unfinished draft built
              rendered quiet,
        )
        (
          refl,
          record {
            session =
                session_saved py bus render sign ttl w sid s r c pdf sha l.unfinished draft built
                  rendered aside named mine;
            report =
                report_saved py bus render sign ttl w sid s r c pdf sha l.unfinished draft built
                  rendered aside named mine;
            file =
                file_saved py bus render sign ttl w sid s r c pdf sha l.unfinished draft built
                  rendered aside named mine;
            event = _;
            kind = refl;
            log =
                log_extended py bus render sign ttl w sid s r c pdf sha l.unfinished draft built
                  rendered aside named mine;
          },
        )
