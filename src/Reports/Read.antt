-- ===== src/Reports/Read.antt =====
-- backend/src/application/use_cases/reports/get.py and get_pdf.py, with
-- backend/src/application/services/session_access.py.
use superion.Prelude.{
  String, Bool, false, not, Option, none, some, List, ℕ, string_eq, ◌==◌, if◌then◌else◌,
}
use superion.Effect.{
  not_found, conflict, ErrorClass, Error, domain_error, Exec, pure, raise, gets, or_raise, raise_if,
  ◌>>=◌, ◌>>◌,
}
use superion.Dict.{get}
use superion.Domain.User.{User, is_plant_reader}
use superion.Domain.Session.{Session}
use superion.Domain.WorkOrder.{WorkOrder}
use superion.Domain.Report.{Report}
use superion.Events.Append.{session_not_found}
use superion.Sessions.Repository.{get_order_for_technician}
use superion.World.{World}
use superion.Reports.Builder.{Python}
use superion.Reports.Live.{report_of, is_closed, ensure_report}
use Prim.Native.String.{◌++◌ as ◌<>◌}

abbrev pub forbidden : Error
forbidden = domain_error ErrorClass.forbidden "FORBIDDEN"

abbrev pub report_not_found : Error
report_not_found = domain_error not_found "REPORT_NOT_FOUND"

abbrev pub not_finalized : Error
not_finalized = domain_error conflict "SESSION_NOT_FINALIZED"

-- The test on the session's technician, as the repository finds them
abbrev pub same_plant : Option User → User → Bool
same_plant none current_user = false
same_plant (some technician) current_user = technician.plant_id == current_user.plant_id

-- The part of `resolve_session_for_user` behind the look-up of the session
unfoldable pub grant_access : Session → User → Exec World Session
grant_access session current_user =
    if session.technician_id == current_user.id
    then pure session
    else if is_plant_reader current_user.role
    then (do
      technician ← gets (λ w. get w.users session.technician_id)
      if same_plant technician current_user then pure session else raise forbidden)
    else raise forbidden

unfoldable pub resolve_session_for_user : String → User → Exec World Session
resolve_session_for_user session_id current_user = do
  found ← gets (λ w. get w.sessions session_id)
  session ← or_raise found session_not_found
  grant_access session current_user

-- `GetReportUseCase.execute`; the output repeats the fields of the report.
unfoldable pub get_report : Python → String → User → Exec World Report
get_report py session_id current_user = do
  _ ← resolve_session_for_user session_id current_user
  ensure_report py session_id

pub record ReportPdfResult : Type 0 where
  pub pdf_bytes : List ℕ
  pub sha256 : String
  pub filename : String

-- `order.code if order is not None else "OT-UNKNOWN"`
abbrev pub ot_code : Option WorkOrder → String
ot_code none = "OT-UNKNOWN"
ot_code (some order) = order.code

-- `report.sha256 or ""`
abbrev pub text_of : Option String → String
text_of none = ""
text_of (some s) = s

-- The part of `execute` behind the checks on the report
unfoldable pub read_pdf : Session → Report → String → Exec World ReportPdfResult
read_pdf session report path = do
  stored ← gets (λ w. get w.files path)
  pdf_bytes ← or_raise stored report_not_found
  order ← gets (λ w. get_order_for_technician w session.work_order_id session.technician_id)
  pure (record {
    pdf_bytes = pdf_bytes;
    sha256 = text_of report.sha256;
    filename = ot_code order <> "-reporte.pdf";
  })

-- `GetReportPdfUseCase.execute`
unfoldable pub get_report_pdf : String → User → Exec World ReportPdfResult
get_report_pdf session_id current_user = do
  session ← resolve_session_for_user session_id current_user
  found ← gets (λ w. report_of w session_id)
  report ← or_raise found report_not_found
  raise_if (not (is_closed report.status)) not_finalized
  path ← or_raise report.pdf_storage_path not_finalized
  read_pdf session report path
