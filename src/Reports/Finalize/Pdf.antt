-- ===== src/Reports/Finalize/Pdf.antt =====
-- The PDF of a finalized session, read back.
use text.Mathlib.TextEquality.{eq_iff}
use superion.Prelude.{ℕ, ◌+◌, String, ◌≡◌, true, false, some, List, arith, string_eq, length}
use superion.Effect.{Result, ok, ◌>>=◌}
use superion.Domain.User.{User}
use superion.Domain.Session.{Session}
use superion.Domain.Template.{Template}
use superion.Domain.Report.{Content, Report}
use superion.Events.Append.Rules.{IsQuiet}
use superion.Sessions.Repository.{get_order_for_technician}
use superion.Sessions.Transition.Context.{Loaded}
use superion.World.{World}
use superion.World.Bus.{EventBus}
use superion.Reports.Builder.{Python}
use superion.Reports.Live.{report_of, is_closed, build_content}
use superion.Reports.Live.Frozen.{IsAside}
use superion.Reports.Read.{
  ReportPdfResult, resolve_session_for_user, grant_access, read_pdf, get_report_pdf, ot_code,
}
use superion.Reports.Finalize.{finalize_body}
use superion.Reports.Finalize.Refusals.{last_step_done}
use superion.Reports.Finalize.Closing.{Closed, closing_world, finalize_body_lem}
use Prim.Native.String.{◌++◌ as ◌<>◌}

-- What a finalized session answers for its PDF
abbrev pub pdf_answer : World → Session → List ℕ → String → ReportPdfResult
pdf_answer v s pdf sha = record {
  pdf_bytes = pdf;
  sha256 = sha;
  filename = ot_code (get_order_for_technician v s.work_order_id s.technician_id) <> "-reporte.pdf";
}

get_report_pdf-eq :
    (w v : World) (sid : String) (user : User) (s : Session) (r : Report) (c : Content)
    (pdf : List ℕ) (sha : String)
    → s.technician_id ≡ user.id
    → Closed w sid s r c pdf sha v
    → get_report_pdf sid user v ≡ (ok (pdf_answer v s pdf sha), v)
unfolding get_report_pdf resolve_session_for_user grant_access read_pdf ◌>>=◌
get_report_pdf-eq w v sid user s r c pdf sha owner k =
    ground (arith, k.session, k.report, k.file, owner, eq_iff s.technician_id user.id)

module _ (py : Python) (bus : EventBus) (quiet : IsQuiet bus) (aside : IsAside bus "session.closed")
    (render : Content → Result (List ℕ × String)) (sign : String → String) (ttl : ℕ) (w : World)
    (sid : String) (user : User) (s : Session) (t : Template) (r : Report) (c : Content)
    (pdf : List ℕ) (sha : String) (l : Loaded sid user s t w) (named : s.id ≡ sid)
    (mine : r.session_id ≡ sid) (last : s.current_step_index + 1 ≡ length t.steps)
    (completed : last_step_done py w sid t ≡ ok true) (drafted : report_of w sid ≡ some r)
    (draft : is_closed r.status ≡ false)
    (built : (build_content py sid (closing_world w s)).0 ≡ ok c)
    (rendered : render c ≡ ok (pdf, sha)) where
  -- What the renderer made of the final content is what its technician downloads afterwards: the same
  -- bytes and the same hash.
  pub get_report_pdf-finalize_body :
      let v = (finalize_body py bus render sign ttl sid user w).1 in
      get_report_pdf sid user v ≡ (ok (pdf_answer v s pdf sha), v)
  get_report_pdf-finalize_body =
      get_report_pdf-eq w _ sid user s r c pdf sha l.owner
        (finalize_body_lem py bus quiet aside render sign ttl w sid user s t r c pdf sha l named
          mine last completed drafted draft built rendered).1
