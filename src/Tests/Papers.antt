-- ===== src/Tests/Papers.antt =====
-- The theorems on reports, for the session of `Fixtures` at its last step.
use text.Mathlib.TextEquality.{eq_iff}
use superion.Prelude.{
  ℕ, String, ◌≡◌, ◌∙◌, refl, Bool, true, false, none, some, List, [], ◌∷◌, arith, string_eq, map,
}
use superion.Effect.{Result, ok, err, value_error, runtime_error, ◌>>=◌}
use superion.Effect.Rules.{Ends}
use superion.Dict.{get, put}
use superion.Value.{Value}
use superion.Domain.Session.{Session, already_finalized}
use superion.Domain.Event.{Event}
use superion.Domain.Asset.{Asset}
use superion.Domain.Report.{Content, Report, ReportStatus, StepStatus}
use superion.Events.Store.{list_since, events_of}
use superion.Sessions.Transition.Context.{Loaded}
use superion.Sessions.Repository.{get_order_for_technician}
use superion.World.{World, Message}
use superion.World.Bus.{socket_bus, SameStores}
use superion.Reports.Builder.{Python, Tally, no_tally, build, content_of, tally, tally_event}
use superion.Reports.Builder.Lines.{build_lem, line_of}
use superion.Reports.Live.{report_of, build_content, photos_of}
use superion.Reports.Live.Filed.{IsFiled, ReportsAfter}
use superion.Reports.Live.Frozen.{IsAside, listen, listen-ReportsAfter}
use superion.Reports.Live.Bus.{live_bus, publish_live-SameStores}
use superion.Reports.Finalize.{finalize_body, completes}
use superion.Reports.Finalize.Refusals.{last_step_done}
use superion.Reports.Finalize.Unready.{IsReady, finalize_body_refuses}
use superion.Sessions.History.{Later-refl}
use superion.Events.Store.Invariant.{empty-IsLog}
use superion.Effect.{Error}
use superion.Reports.Finalize.Closing.{Closed, closing_world, finalize_body_lem, finalized_session}
use superion.Reports.Finalize.Pdf.{get_report_pdf-finalize_body, pdf_answer}
use superion.Reports.Finalize.Stuck.{broken_render}
use superion.Reports.Read.{get_report_pdf}
use superion.Tests.Fixtures.{technician, session, order, template, plant}
use superion.Tests.Names.{names, names_differ, r1_other}

-- A printer and a reader of values
abbrev pub py : Python
py = record { digits = λ n. "n"; str = λ v. "?"; int = λ v. err value_error }

abbrev equal : Value → Value → Bool
equal v u = false

abbrev asset : Asset
asset = record {
  id = "a1";
  plant_id = "plant-1";
  tag = "B-1";
  name = "Pump";
  model = "P100";
  manufacturer = "Acme";
  current_manual_id = "m1";
}

abbrev completed : Event
completed = record {
  id = "e1";
  session_id = "s1";
  seq = 1;
  type = "step.completed";
  payload = ("index", Value.num 1) ∷ [];
  step_index = 1;
  created_at = 3;
}

abbrev last_session : Session
last_session = record session { current_step_index = 1 }

abbrev tallied : Tally
tallied = record no_tally { completed_steps = 1 ∷ [] }

abbrev content : Content
content = content_of py last_session order asset technician template [] tallied

abbrev report : Report
report = record {
  id = "r1";
  session_id = "s1";
  status = ReportStatus.draft;
  content_json = content;
  version = 1;
  updated_at = 0;
  pdf_storage_path = none;
  sha256 = none;
  generated_at = none;
  finalized_at = none;
}

-- The session is at its last step, which is completed; its report is a draft.
abbrev done : World
done = record plant {
  sessions = ("s1", last_session) ∷ [];
  assets = ("a1", asset) ∷ [];
  event_store = record {
    events = ("s1", completed ∷ []) ∷ [];
    seq_counters = ("s1", 1) ∷ [];
    event_id_index = (("s1", "e1"), completed) ∷ [];
  };
  reports = ("r1", report) ∷ [];
  report_index = ("s1", "r1") ∷ [];
  uuid = names;
}

done-Loaded : Loaded "s1" technician last_session template done
unfolding get get_order_for_technician
done-Loaded = record {
  stored = refl;
  owner = refl;
  unfinished = refl;
  order = order;
  assigned = refl;
  planned = refl;
}

-- The content for the finalized session
abbrev final : Content
final =
    content_of py (finalized_session done last_session) order asset technician template [] tallied

abbrev render : Content → Result (List ℕ × String)
render c = ok (37 ∷ [], "hash")

abbrev no_render : Content → Result (List ℕ × String)
no_render c = err runtime_error

last_step-done : last_step_done py done "s1" template ≡ ok true
unfolding completes list_since events_of get
last_step-done = refl

final-built : (build_content py "s1" (closing_world done last_session)).0 ≡ ok final
unfolding build_content get put get_order_for_technician list_since events_of photos_of build tally
    tally_event ◌>>=◌
final-built = refl

build-final :
    build py
      (finalized_session done last_session)
      order
      asset
      technician
      template
      (completed ∷ [])
      []
    ≡ ok final
unfolding build tally tally_event get
build-final = refl

report-stored : report_of done "s1" ≡ some report
unfolding report_of get
report-stored = refl

socket-IsAside : (type : String) → IsAside socket_bus type
socket-IsAside type = record {
  reports = λ m w e. refl;
  report_index = λ m w e. refl;
  files = λ m w e. refl;
  drawn = λ m w e. omega arith;
}

build_lem_example :
    (final.findings ≡ [])
    × (final.measurements ≡ [])
    × (map line_of final.procedure
        ≡ (0, "Isolate", StepStatus.pending) ∷ (1, "Inspect", StepStatus.done) ∷ [])
unfolding get
build_lem_example =
    build_lem py (finalized_session done last_session) order asset technician template []
      (completed ∷ []) final build-final

finalize_body_lem_example :
    let (result, v) = finalize_body py socket_bus render (λ path. path) 60 "s1" technician done in
    (result
      ≡ ok (record {
        session_id = "s1";
        report_id = "r1";
        pdf_url = "reports/s1/report.pdf";
        pdf_expires_at = 60;
      }))
    × Closed done "s1" last_session report final (37 ∷ []) "hash" v
finalize_body_lem_example =
    finalize_body_lem py socket_bus (λ m w. refl) (socket-IsAside "session.closed") render
      (λ path. path) 60 done "s1" technician last_session template report final (37 ∷ []) "hash"
      done-Loaded refl refl refl last_step-done report-stored refl final-built refl

get_report_pdf-finalize_body_example :
    let v = (finalize_body py socket_bus render (λ path. path) 60 "s1" technician done).1 in
    get_report_pdf "s1" technician v ≡ (ok (pdf_answer v last_session (37 ∷ []) "hash"), v)
get_report_pdf-finalize_body_example =
    get_report_pdf-finalize_body py socket_bus (λ m w. refl) (socket-IsAside "session.closed")
      render (λ path. path) 60 done "s1" technician last_session template report final (37 ∷ [])
      "hash" done-Loaded refl refl refl last_step-done report-stored refl final-built refl

-- The plant some time after the session is finalized
abbrev afterwards : World
afterwards = record (closing_world done last_session) { ticks = 60 }

afterwards-stored : get afterwards.sessions "s1" ≡ some (finalized_session done last_session)
unfolding get put
afterwards-stored = refl

broken_render_example :
    let (result, v) =
      finalize_body py socket_bus no_render (λ path. path) 60 "s1" technician done in
    (result ≡ err runtime_error)
    × (get v.sessions "s1" ≡ some (finalized_session done last_session))
    × (report_of v "s1" ≡ some report)
    × (finalize_body py socket_bus no_render (λ path. path) 60 "s1" technician afterwards
        ≡ (err already_finalized, afterwards))
broken_render_example =
    broken_render py socket_bus no_render (λ path. path) 60 "s1" technician done last_session
      template report final runtime_error done-Loaded refl refl last_step-done report-stored refl
      final-built refl afterwards (finalized_session done last_session) afterwards-stored
      (Later-refl (finalized_session done last_session))

plant-Loaded : Loaded "s1" technician session template plant
unfolding get get_order_for_technician
plant-Loaded = record {
  stored = refl;
  owner = refl;
  unfinished = refl;
  order = order;
  assigned = refl;
  planned = refl;
}

plant-unready : ¬ IsReady py plant "s1" session template
plant-unready ready = ground (arith, ready.last)

finalize_body_refuses_example :
    (e : Error) × (finalize_body py socket_bus render (λ path. path) 60 "s1" technician plant
      ≡ (err e, plant))
finalize_body_refuses_example =
    finalize_body_refuses py socket_bus render (λ path. path) 60 plant "s1" technician session
      template empty-IsLog plant-Loaded plant-unready

done-IsFiled : IsFiled done
unfolding report_of get
done-IsFiled = record {
  session = λ sid r e. ground (arith, eq_iff "s1" sid, eq_iff "r1" "r1");
  id = λ sid r e. ground (arith, eq_iff "s1" sid, eq_iff "r1" "r1");
  fresh = λ sid k e n le q. r1_other n (ground (arith, eq_iff "s1" sid) ∙ q);
  distinct = names_differ;
}

-- A message of the bus that rebuilds the report
abbrev told : Message
told = record {
  seq = 2;
  type = "event.appended";
  session_id = "s1";
  created_at = 0;
  payload = ("type", Value.text "finding") ∷ ("step_index", Value.num 1) ∷ [];
}

listen-ReportsAfter_example :
    ReportsAfter done
      (listen py equal socket_bus (socket-IsAside "report.updated") (told ∷ []) done)
listen-ReportsAfter_example =
    listen-ReportsAfter py equal socket_bus (socket-IsAside "report.updated") (told ∷ []) done
      done-IsFiled

publish_live-SameStores_example : Ends SameStores ((live_bus py equal socket_bus).publish told)
publish_live-SameStores_example = publish_live-SameStores py equal socket_bus told
