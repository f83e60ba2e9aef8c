-- ===== src/Domain/Report.antt =====
-- backend/src/domain/entities/maintenance_report.py, value_objects/report_status.py and
-- report_diff.py; and the content of a report, a `dict[str, object]` with fixed keys. A time in it
-- is the time itself, where the code prints it.
use superion.Prelude.{ℕ, ◌+◌, String, Bool, Option, some, List, ltb, if◌then◌else◌}
use superion.Effect.{conflict, Error, domain_error, value_error, Result, ok, err}
use superion.Value.{Value}

pub data StepStatus : Type 0 where
  pending done skipped : StepStatus

-- `{"text": ..., "severity": ..., "step_index": ...}`
pub record Finding : Type 0 where
  pub text : String
  pub severity : String
  pub step_index : ℕ

pub record Measurement : Type 0 where
  pub name : String
  pub value : Value
  pub unit : String
  pub step_index : ℕ

-- `{"path": ..., "caption": ...}`
pub record PhotoLink : Type 0 where
  pub path : String
  pub caption : String

-- An item of `procedure`; its times and its duration are always `None`.
pub record ProcedureItem : Type 0 where
  pub index : ℕ
  pub title : String
  pub status : StepStatus
  pub skip_reason : Option String
  pub photos : List PhotoLink
  pub observations : List String
  pub findings : List (String × String)

-- An item of `photos_gallery`
pub record GalleryPhoto : Type 0 where
  pub photo_id : String
  pub step_index : ℕ
  pub path : String
  pub caption : String

pub record Header : Type 0 where
  pub ot_code : String
  pub technician : String
  pub asset : String
  pub plant : String
  pub started_at : ℕ
  pub ended_at : Option ℕ
  pub duration_min : Option ℕ

-- `content_json`; its `next_actions` is always empty.
pub record Content : Type 0 where
  pub header : Header
  pub summary : String
  pub procedure : List ProcedureItem
  pub findings : List Finding
  pub measurements : List Measurement
  pub photos_gallery : List GalleryPhoto

pub data ReportStatus : Type 0 where
  draft finalized : ReportStatus

pub record Report : Type 0 where
  pub id : String
  pub session_id : String
  pub status : ReportStatus
  pub content_json : Content
  pub version : ℕ
  pub updated_at : ℕ
  pub pdf_storage_path : Option String
  pub sha256 : Option String
  pub generated_at : Option ℕ
  pub finalized_at : Option ℕ

-- `__post_init__`
unfoldable pub make_report : Report → Result Report
make_report r = if ltb r.version 1 then err value_error else ok r

-- `with_content`
unfoldable pub with_content : Report → Content → ℕ → Report
with_content r content_json updated_at = record r {
  content_json = content_json;
  version = r.version + 1;
  updated_at = updated_at;
}

abbrev pub report_finalized : Error
report_finalized = domain_error conflict "SESSION_ALREADY_FINALIZED"

mark_from : ReportStatus → Report → String → String → ℕ → ℕ → Content → ℕ → Result Report
mark_from ReportStatus.finalized r path sha256 generated_at finalized_at content_json updated_at =
    err report_finalized
mark_from ReportStatus.draft r path sha256 generated_at finalized_at content_json updated_at =
    ok (record r {
      status = ReportStatus.finalized;
      content_json = content_json;
      version = r.version + 1;
      pdf_storage_path = some path;
      sha256 = some sha256;
      generated_at = some generated_at;
      finalized_at = some finalized_at;
      updated_at = updated_at;
    })

-- `mark_finalized`
unfoldable pub mark_finalized : Report → String → String → ℕ → ℕ → Content → ℕ → Result Report
unfolding mark_from
mark_finalized r = mark_from r.status r

-- `ReportDiff`
pub record ReportDiff : Type 0 where
  pub summary_changed : Bool
  pub added_event_seq : ℕ
  pub step_index : Option ℕ
  pub fields_changed : List String
