-- ===== src/Reports/Live.antt =====
-- backend/src/application/use_cases/reports/build_live.py, with
-- backend/src/infrastructure/persistence/in_memory/report_repository.py. The handler of `start` is
-- `on_bus_message`; the bus with that handler is in `Bus`.
pub mod Keeps
pub mod Bus
pub mod Filed
pub mod Frozen
use superion.Prelude.{
  ℕ, String, Bool, true, false, not, Option, none, some, List, [], ◌∷◌, map, string_eq, ◌==◌, keep,
  if◌then◌else◌,
}
use superion.Effect.{value_error, Exec, ok, pure, lift, gets, or_raise, ◌>>=◌, ◌>>◌}
use superion.Dict.{get, put, values}
use superion.Value.{Value, Payload, Fields, Items, is_text}
use superion.Domain.Event.{is_one_of}
use superion.Domain.Session.{is_finalized}
use superion.Domain.Photo.{Photo}
use superion.Domain.Report.{Content, Report, ReportDiff, ReportStatus, make_report, with_content}
use superion.Events.Store.{list_since, next_seq}
use superion.World.{World, Message, uuid4, now}
use superion.World.Bus.{EventBus}
use superion.Sessions.Repository.{get_order_for_technician, get_template}
use superion.Reports.Builder.{Python, build, int_or, text_or}
use superion.Reports.Diff.{compute_report_diff}

-- `InMemoryReportRepository.save`
unfoldable pub save_report : Report → Exec World (Unit {0})
save_report r w = (
  ok tt,
  record w { reports = put w.reports r.id r; report_index = put w.report_index r.session_id r.id },
)

-- `get_by_session_id`
unfoldable pub report_of : World → String → Option Report
report_of w session_id = elim (get w.report_index session_id) [
  | none ↦ none
  | some id ↦ get w.reports id
]

-- `list_by_session` of the photos
unfoldable pub photos_of : World → String → List Photo
photos_of w session_id = keep (λ p. p.session_id == session_id) (values w.photos)

abbrev pub is_closed : ReportStatus → Bool
is_closed ReportStatus.finalized = true
is_closed ReportStatus.draft = false

abbrev pub relevant_ws_types : List String
relevant_ws_types = "step.completed" ∷ "photo" ∷ "photo.validated" ∷ "event.appended" ∷ []

abbrev inner_types : List String
inner_types = "finding" ∷ "measurement" ∷ "utterance" ∷ "observation" ∷ []

abbrev list_of : List String → Items
list_of [] = Items.nil
list_of (s ∷ ss) = Items.cons (Value.text s) (list_of ss)

abbrev number_or_null : Option ℕ → Value
number_or_null none = Value.null
number_or_null (some n) = Value.num n

-- The payload of `report.updated`
abbrev updated_payload : Report → ReportDiff → Payload
updated_payload r diff =
    ("report_id", Value.text r.id)
    ∷ ("version", Value.num r.version)
    ∷ (
      "diff",
      Value.object (
          Fields.field "summary_changed" (Value.bool diff.summary_changed) (
            Fields.field "step_index" (number_or_null diff.step_index) (
              Fields.field "added_event_seq" (Value.num diff.added_event_seq) (
                Fields.field "fields_changed" (Value.list (list_of diff.fields_changed))
                  Fields.end)))),
    )
    ∷ []

module _ (py : Python) where
  -- `_build_content`, and `build_content`, which calls it
  unfoldable pub build_content : String → Exec World Content
  build_content session_id = do
    found_session ← gets (λ w. get w.sessions session_id)
    session ← or_raise found_session value_error
    found_order ← gets (λ w. get_order_for_technician w session.work_order_id session.technician_id)
    order ← or_raise found_order value_error
    found_template ← gets (λ w. get_template w order.procedure_template_id)
    template ← or_raise found_template value_error
    found_asset ← gets (λ w. get w.assets order.asset_id)
    asset ← or_raise found_asset value_error
    found_user ← gets (λ w. get w.users session.technician_id)
    technician ← or_raise found_user value_error
    event_list ← gets (λ w. list_since w.event_store session_id 0 500)
    photo_list ← gets (λ w. photos_of w session_id)
    lift (build py session order asset technician template event_list photo_list)

  -- The end of `ensure_report`
  unfoldable pub store_draft : String → ℕ → Content → Exec World Report
  store_draft session_id at content = do
    id ← uuid4
    report ← lift (
        make_report (record {
          id = id;
          session_id = session_id;
          status = ReportStatus.draft;
          content_json = content;
          version = 1;
          updated_at = at;
          pdf_storage_path = none;
          sha256 = none;
          generated_at = none;
          finalized_at = none;
        }))
    save_report report
    pure report

  -- The part of `ensure_report` behind the look-up of a report
  unfoldable pub create_report : String → Exec World Report
  create_report session_id = do
    found ← gets (λ w. get w.sessions session_id)
    _ ← or_raise found value_error
    at ← now
    content ← build_content session_id
    store_draft session_id at content

  -- `report = await get_by_session_id(...)`, and `ensure_report` where there is none
  unfoldable pub ensure_report : String → Exec World Report
  ensure_report session_id = do
    existing ← gets (λ w. report_of w session_id)
    elim existing [ some r ↦ pure r | none ↦ create_report session_id ]

  module _ (equal : Value → Value → Bool) (bus : EventBus) where
    -- The part of `_rebuild` behind the guards
    unfoldable pub update_report : Report → String → ℕ → Option ℕ → Exec World (Unit {0})
    update_report report session_id added_event_seq step_index = do
      content ← build_content session_id
      let diff = compute_report_diff equal report.content_json content added_event_seq step_index
      at ← now
      let updated = with_content report content at
      save_report updated
      seq ← gets (λ w. next_seq w.event_store session_id)
      bus.publish (record {
        seq = seq;
        type = "report.updated";
        session_id = session_id;
        created_at = at;
        payload = updated_payload updated diff;
      })

    -- The part of `_rebuild` behind the look-up of the session
    unfoldable pub refresh_report : String → ℕ → Option ℕ → Exec World (Unit {0})
    refresh_report session_id added_event_seq step_index = ensure_report session_id >>= λ report.
        if is_closed report.status
        then pure tt
        else update_report report session_id added_event_seq step_index

    unfoldable pub rebuild : String → ℕ → Option ℕ → Exec World (Unit {0})
    rebuild session_id added_event_seq step_index = do
      found ← gets (λ w. get w.sessions session_id)
      elim found [
        | none ↦ pure tt
        | some session ↦
            if is_finalized session.status
            then pure tt
            else refresh_report session_id added_event_seq step_index
      ]

    -- `_on_bus_message`
    unfoldable pub on_bus_message : Message → Exec World (Unit {0})
    on_bus_message m =
        if not (is_one_of m.type relevant_ws_types)
        then pure tt
        else if m.session_id == ""
        then pure tt
        else if m.type == "event.appended"
        then (if not (is_one_of (text_or py "" (get m.payload "type")) inner_types)
            then pure tt
            else (do
              i ← lift (int_or py 0 (get m.payload "step_index"))
              rebuild m.session_id m.seq (some i)))
        else if m.type == "photo"
        then (if not (is_text "accepted" (get m.payload "status")) then pure tt else (do
          i ← lift (int_or py 0 (get m.payload "step_index"))
          rebuild m.session_id m.seq (some i)))
        else if m.type == "photo.validated"
        then (do
          i ← lift (int_or py 0 (get m.payload "step_index"))
          rebuild m.session_id m.seq (some i))
        else (do
          i ← lift (int_or py 0 (get m.payload "index"))
          rebuild m.session_id m.seq (some i))
