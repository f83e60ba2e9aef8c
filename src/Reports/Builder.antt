-- ===== src/Reports/Builder.antt =====
-- `ReportBuilder` of backend/src/application/use_cases/reports/builder.py. The parameters are Python's
-- own: `str` of a number, `str` of a JSON value that is no text, and `int` of one that is no number.
pub mod Summary
pub mod Lines
use superion.Prelude.{
  ℕ, zero, suc, ◌+◌, ◌-◌, ◌/◌, String, Bool, true, false, Option, none, some, List, [], ◌∷◌, ◌++◌,
  map, nat_eq, string_eq, ◌==◌, length, keep, any, if◌then◌else◌,
}
use superion.Effect.{Result, ok, err}
use superion.Dict.{Dict, get, get_or, put}
use superion.Value.{Value, Payload}
use superion.Domain.User.{User}
use superion.Domain.Session.{Session}
use superion.Domain.WorkOrder.{WorkOrder}
use superion.Domain.Template.{Template, Step}
use superion.Domain.Event.{Event}
use superion.Domain.Photo.{Photo, PhotoStatus}
use superion.Domain.Asset.{Asset}
use superion.Domain.Report.{
  Content, Finding, Header, Measurement, PhotoLink, ProcedureItem, GalleryPhoto, StepStatus,
}
use Prim.Native.String.{◌++◌ as ◌<>◌}

-- The local variables of `build` that the loop over the events fills
pub record Tally : Type 0 where
  pub findings : List Finding
  pub measurements : List Measurement
  pub completed_steps : List ℕ
  pub skipped_steps : Dict ℕ String
  pub step_observations : Dict ℕ (List String)
  pub step_findings : Dict ℕ (List (String × String))

abbrev pub no_tally : Tally
no_tally = record {
  findings = [];
  measurements = [];
  completed_steps = [];
  skipped_steps = [];
  step_observations = [];
  step_findings = [];
}

-- `xs.add(x)`, for a set
abbrev pub add : ℕ → List ℕ → List ℕ
add x xs = if any (λ y. y == x) xs then xs else x ∷ xs

-- `d.setdefault(k, []).append(x)`
abbrev pub append_at : {A : Type 0} → Dict ℕ (List A) → ℕ → A → Dict ℕ (List A)
append_at d k x = put d k (get_or d k [] ++ x ∷ [])

-- What the use cases take from Python
pub record Python : Type 0 where
  pub digits : ℕ → String
  pub str : Value → String
  pub int : Value → Result ℕ

-- `str(payload.get(key, default))`
abbrev pub text_or : Python → String → Option Value → String
text_or py default none = default
text_or py default (some (Value.text s)) = s
text_or py default (some v) = py.str v

-- `int(payload.get(key, default))`
abbrev pub int_or : Python → ℕ → Option Value → Result ℕ
int_or py default none = ok default
int_or py default (some (Value.num n)) = ok n
int_or py default (some v) = py.int v

-- `payload.get(key)`
abbrev pub value_or_null : Option Value → Value
value_or_null none = Value.null
value_or_null (some v) = v

module _ (py : Python) where
  abbrev pub finding_of : Event → Finding
  finding_of e = record {
    text = text_or py "" (get e.payload "text");
    severity = text_or py "low" (get e.payload "severity");
    step_index = e.step_index;
  }

  abbrev pub measurement_of : Event → Measurement
  measurement_of e = record {
    name = text_or py "" (get e.payload "name");
    value = value_or_null (get e.payload "value");
    unit = text_or py "" (get e.payload "unit");
    step_index = e.step_index;
  }

  -- `step_observations.setdefault(...).append(text)`, under `if text:`
  abbrev pub observe : Tally → ℕ → String → Tally
  observe t i text =
      if text == ""
      then t
      else record t { step_observations = append_at t.step_observations i text }

  abbrev pub complete_at : Tally → Result ℕ → Result Tally
  complete_at t (ok i) = ok (record t { completed_steps = add i t.completed_steps })
  complete_at t (err e) = err e

  abbrev pub skip_at : Tally → String → Result ℕ → Result Tally
  skip_at t reason (ok i) = ok (record t { skipped_steps = put t.skipped_steps i reason })
  skip_at t reason (err e) = err e

  -- One turn of the loop over the events
  unfoldable pub tally_event : Tally → Event → Result Tally
  tally_event t e =
      if e.type == "step.completed"
      then complete_at t (int_or py e.step_index (get e.payload "index"))
      else if e.type == "step.skipped"
      then skip_at t (text_or py "" (get e.payload "reason"))
          (int_or py e.step_index (get e.payload "index"))
      else if e.type == "finding"
      then ok (record t {
        findings = t.findings ++ finding_of e ∷ [];
        step_findings =
            append_at t.step_findings e.step_index ((finding_of e).text, (finding_of e).severity);
      })
      else if e.type == "measurement"
      then ok (record t { measurements = t.measurements ++ measurement_of e ∷ [] })
      else if e.type == "photo"
      then (if text_or py "" (get e.payload "status") == "accepted"
          then ok (record t {
            step_observations =
                append_at t.step_observations e.step_index
                  (text_or py "" (get e.payload "feedback"));
          })
          else ok t)
      else if e.type == "utterance"
      then (if text_or py "technician" (get e.payload "speaker") == "technician"
          then ok (observe t e.step_index (text_or py "" (get e.payload "text")))
          else ok t)
      else if e.type == "observation"
      then ok (observe t e.step_index (text_or py "" (get e.payload "text")))
      else ok t

  -- `for event in events: ...`; an error ends the loop.
  unfoldable pub tally : Tally → List Event → Result Tally
  tally t [] = ok t
  tally t (e ∷ es) = elim (tally_event t e) [ ok u ↦ tally u es | err x ↦ err x ]

  abbrev pub is_accepted : PhotoStatus → Bool
  is_accepted PhotoStatus.accepted = true
  is_accepted PhotoStatus.pending = false
  is_accepted PhotoStatus.rejected = false
  is_accepted PhotoStatus.escalated = false

  -- `a or b`, for an optional text
  abbrev pub or_else : Option String → String → String
  or_else none b = b
  or_else (some a) b = if a == "" then b else a

  -- `photo.criteria or photo.validation_feedback or ""`
  abbrev pub caption_of : Photo → String
  caption_of p = or_else p.criteria (or_else p.validation_feedback "")

  abbrev pub link_of : Photo → PhotoLink
  link_of p = record { path = p.storage_path; caption = caption_of p }

  abbrev pub gallery_of : Photo → GalleryPhoto
  gallery_of p = record {
    photo_id = p.id;
    step_index = p.step_index;
    path = p.storage_path;
    caption = caption_of p;
  }

  -- `status` and `skip_reason` of a step
  unfoldable pub status_of : Tally → ℕ → StepStatus × Option String
  status_of t i =
      if any (λ y. y == i) t.completed_steps
      then (StepStatus.done, none)
      else elim (get t.skipped_steps i) [
        | some reason ↦ (StepStatus.skipped, some reason)
        | none ↦ (StepStatus.pending, none)
      ]

  abbrev pub item_of : Tally → List Photo → Step → ProcedureItem
  item_of t accepted s = record {
    index = s.index;
    title = s.title;
    status = (status_of t s.index).0;
    skip_reason = (status_of t s.index).1;
    photos = map link_of (keep (λ p. p.step_index == s.index) accepted);
    observations = get_or t.step_observations s.index [];
    findings = get_or t.step_findings s.index [];
  }

  -- `_duration_minutes`
  abbrev pub duration_minutes : ℕ → Option ℕ → Option ℕ
  duration_minutes started_at none = none
  duration_minutes started_at (some ended_at) = some ((ended_at - started_at) / 60)

  abbrev pub summary_of : WorkOrder → ℕ → ℕ → ℕ → ℕ → String
  summary_of order done_count total findings photos =
      "Mantenimiento "
      <> (order.code
          <> (": "
              <> (py.digits done_count
                  <> ("/"
                      <> (py.digits total
                          <> (" pasos completados. "
                              <> (py.digits findings
                                  <> (" hallazgos, "
                                      <> (py.digits photos <> " fotos aceptadas.")))))))))

  -- The part of `build` behind the loop over the events
  unfoldable pub content_of :
      Session → WorkOrder → Asset → User → Template → List Photo → Tally → Content
  content_of session order asset technician template photos t =
      let accepted = keep (λ p. is_accepted p.validation_status) photos in
      record {
        header = record {
          ot_code = order.code;
          technician = technician.full_name;
          asset = asset.name;
          plant = asset.plant_id;
          started_at = session.started_at;
          ended_at = session.ended_at;
          duration_min = duration_minutes session.started_at session.ended_at;
        };
        summary =
            summary_of order (length t.completed_steps) (length template.steps) (length t.findings)
              (length accepted);
        procedure = map (item_of t accepted) template.steps;
        findings = t.findings;
        measurements = t.measurements;
        photos_gallery = map gallery_of accepted;
      }

  -- `ReportBuilder.build`
  unfoldable pub build :
      Session → WorkOrder → Asset → User → Template → List Event → List Photo → Result Content
  build session order asset technician template events photos = elim (tally no_tally events) [
    | ok t ↦ ok (content_of session order asset technician template photos t)
    | err e ↦ err e
  ]
