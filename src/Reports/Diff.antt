-- ===== src/Reports/Diff.antt =====
-- `compute_report_diff` of backend/src/application/use_cases/reports/builder.py. Two sections are
-- compared as Python compares the lists and the dictionaries with fixed keys that they are; `equal` is
-- Python's `==` on JSON values.
use superion.Prelude.{
  ℕ, String, Bool, true, false, not, Option, none, some, List, [], ◌∷◌, ◌++◌, ◌&&◌, nat_eq,
  string_eq, ◌==◌, if◌then◌else◌,
}
use superion.Value.{Value}
use superion.Domain.Report.{
  Content, Finding, Measurement, PhotoLink, ProcedureItem, GalleryPhoto, StepStatus, ReportDiff,
}

-- `xs == ys`, for lists
pub same_list : {A : Type 0} → (A → A → Bool) → List A → List A → Bool
same_list same [] [] = true
same_list same [] (y ∷ ys) = false
same_list same (x ∷ xs) [] = false
same_list same (x ∷ xs) (y ∷ ys) = same x y && same_list same xs ys

abbrev same_option : Option String → Option String → Bool
same_option none none = true
same_option none (some b) = false
same_option (some a) none = false
same_option (some a) (some b) = a == b

abbrev same_status : StepStatus → StepStatus → Bool
same_status StepStatus.pending StepStatus.pending = true
same_status StepStatus.done StepStatus.done = true
same_status StepStatus.skipped StepStatus.skipped = true
same_status _ _ = false

abbrev same_text : String → String → Bool
same_text a b = a == b

abbrev same_finding : Finding → Finding → Bool
same_finding f g = f.text == g.text && f.severity == g.severity && f.step_index == g.step_index

abbrev same_link : PhotoLink → PhotoLink → Bool
same_link p q = p.path == q.path && p.caption == q.caption

abbrev same_noted : String × String → String × String → Bool
same_noted (a, b) (c, d) = a == c && b == d

abbrev same_item : ProcedureItem → ProcedureItem → Bool
same_item p q =
    p.index == q.index
    && p.title == q.title
    && same_status p.status q.status
    && same_option p.skip_reason q.skip_reason
    && same_list same_link p.photos q.photos
    && same_list same_text p.observations q.observations
    && same_list same_noted p.findings q.findings

abbrev same_photo : GalleryPhoto → GalleryPhoto → Bool
same_photo p q =
    p.photo_id == q.photo_id
    && p.step_index == q.step_index
    && p.path == q.path
    && p.caption == q.caption

module _ (equal : Value → Value → Bool) where
  abbrev same_measurement : Measurement → Measurement → Bool
  same_measurement m n =
      m.name == n.name && equal m.value n.value && m.unit == n.unit && m.step_index == n.step_index

  -- `if old != new: fields_changed.append(name)`
  abbrev changed : Bool → String → List String
  changed same name = if same then [] else name ∷ []

  unfoldable pub compute_report_diff : Content → Content → ℕ → Option ℕ → ReportDiff
  compute_report_diff old_content new_content added_event_seq step_index = record {
    summary_changed = not (old_content.summary == new_content.summary);
    added_event_seq = added_event_seq;
    step_index = step_index;
    fields_changed =
        changed (same_list same_finding old_content.findings new_content.findings) "findings"
        ++ changed (same_list same_measurement old_content.measurements new_content.measurements)
            "measurements"
        ++ changed (same_list same_item old_content.procedure new_content.procedure) "procedure"
        ++ changed (same_list same_photo old_content.photos_gallery new_content.photos_gallery)
            "photos_gallery";
  }
