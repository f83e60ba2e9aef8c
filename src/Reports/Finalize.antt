-- ===== src/Reports/Finalize.antt =====
-- backend/src/application/use_cases/reports/finalize.py. `render` is the renderer, which may raise,
-- and `sign` gives the URL for a path of the storage.
pub mod Refusals
pub mod Unready
pub mod Closing
pub mod Pdf
pub mod Stuck
use superion.Prelude.{
  ℕ, ◌+◌, ◌-◌, String, Bool, true, false, not, Option, none, some, List, [], ◌∷◌, nat_eq, string_eq,
  ◌==◌, length, if◌then◌else◌,
}
use superion.Effect.{Result, ok, err, Exec, pure, lift, gets, raise_if, modify, ◌>>=◌, ◌>>◌}
use superion.Dict.{get, put}
use superion.Value.{Value}
use superion.Domain.User.{User}
use superion.Domain.Session.{Session, finalize}
use superion.Domain.Template.{Template}
use superion.Domain.Event.{Event}
use superion.Domain.Report.{Content, Report, report_finalized, mark_finalized}
use superion.Events.Store.{list_since}
use superion.Events.Append.{emit_system_event}
use superion.Sessions.Repository.{save}
use superion.Sessions.Transition.{load_session_context, requires_photo}
use superion.Audit.{AuditAction}
use superion.Audit.Log.{audited}
use superion.World.{World, now}
use superion.World.Bus.{EventBus}
use superion.Reports.Builder.{Python, int_or}
use superion.Reports.Live.{save_report, is_closed, build_content, ensure_report}
use Prim.Native.String.{◌++◌ as ◌<>◌}

pub record FinalizeReportOutput : Type 0 where
  pub session_id : String
  pub report_id : String
  pub pdf_url : String
  pub pdf_expires_at : ℕ

-- `f"reports/{session_id}/report.pdf"`
abbrev pub storage_key : String → String
storage_key session_id = "reports/" <> (session_id <> "/report.pdf")

-- The test of `any` on the step that an event names
abbrev pub names : ℕ → Result ℕ → Result Bool → Result Bool
names last_index (err e) rest = err e
names last_index (ok i) rest = if i == last_index then ok true else rest

module _ (py : Python) where
  -- `any(event.type == "step.completed" and int(...) == last_index for event in event_list)`
  unfoldable pub completes : ℕ → List Event → Result Bool
  completes last_index [] = ok false
  completes last_index (e ∷ es) =
      let rest = completes last_index es in
      if e.type == "step.completed"
      then names last_index (int_or py e.step_index (get e.payload "index")) rest
      else rest

  -- The checks of `execute` behind the look-ups of the session, the order and the template: the
  -- session is at the last step, and one of its first 500 events completes that step.
  unfoldable pub check_completed : String → Session → Template → Exec World (Unit {0})
  check_completed session_id session template = do
    raise_if (not (session.current_step_index + 1 == length template.steps)) requires_photo
    event_list ← gets (λ w. list_since w.event_store session_id 0 500)
    last_completed ← lift (completes (length template.steps - 1) event_list)
    raise_if (not last_completed) requires_photo

  module _ (bus : EventBus) (render : Content → Result (List ℕ × String)) (sign : String → String)
      (signed_url_ttl : ℕ) where
    -- The part of `execute` that writes
    unfoldable pub close_session : String → Session → Report → Exec World FinalizeReportOutput
    close_session session_id session report = do
      ended_at ← now
      updated_session ← lift (finalize session ended_at)
      save updated_session
      content ← build_content py session_id
      (pdf_bytes, sha256) ← lift (render content)
      modify (λ w. record w { files = put w.files (storage_key session_id) pdf_bytes })
      finalized_report ←
          lift (
            mark_finalized report (storage_key session_id) sha256 ended_at ended_at content
              ended_at)
      save_report finalized_report
      let pdf_url = sign (storage_key session_id)
      _ ←
          emit_system_event bus session_id "session.closed" updated_session.current_step_index
            (("report_id", Value.text finalized_report.id) ∷ ("pdf_url", Value.text pdf_url) ∷ [])
            none
      pure (record {
        session_id = session_id;
        report_id = finalized_report.id;
        pdf_url = pdf_url;
        pdf_expires_at = ended_at + signed_url_ttl;
      })

    -- The body of `execute`, without its decorator. Its look-ups and their errors are those of
    -- `load_session_context`.
    unfoldable pub finalize_body : String → User → Exec World FinalizeReportOutput
    finalize_body session_id current_user = do
      (session, template) ← load_session_context session_id current_user
      check_completed session_id session template
      report ← ensure_report py session_id
      raise_if (is_closed report.status) report_finalized
      close_session session_id session report

    -- `FinalizeReportUseCase.execute`
    unfoldable pub finalize_report : String → User → Exec World FinalizeReportOutput
    finalize_report session_id current_user =
        audited AuditAction.finalize_session "session" (λ _. current_user.id) (λ out. out.report_id)
          (λ _. ("session_id", Value.text session_id) ∷ []) (finalize_body session_id current_user)
