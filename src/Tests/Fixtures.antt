-- ===== src/Tests/Fixtures.antt =====
-- One technician with one open session on a procedure of two steps. The first step is critical, the
-- second needs a photo.
use superion.Prelude.{ℕ, String, true, false, none, some, [], ◌∷◌, string_eq}
use superion.Value.{Value}
use superion.Domain.User.{User, Role}
use superion.Domain.Session.{Session, SessionStatus}
use superion.Domain.WorkOrder.{WorkOrder, WorkOrderStatus, OrderType, Priority}
use superion.Domain.Template.{Template}
use superion.Domain.Event.{Event}
use superion.Events.Store
use superion.Events.Post.{EventInput}
use superion.Audit
use superion.Security.Blacklist
use superion.World.{World}

abbrev pub technician : User
technician = record {
  id = "tech-1";
  email = "juan@planta.com";
  password_hash = "hash";
  full_name = "Juan";
  role = Role.technician;
  plant_id = "plant-1";
  is_blocked = false;
}

abbrev pub session : Session
session = record {
  id = "s1";
  work_order_id = "o1";
  technician_id = "tech-1";
  status = SessionStatus.active;
  started_at = 0;
  current_step_index = 0;
  langgraph_thread_id = "t1";
  ended_at = none;
}

abbrev pub order : WorkOrder
order = record {
  id = "o1";
  code = "OT-1";
  asset_id = "a1";
  type = OrderType.preventive;
  priority = Priority.low;
  status = WorkOrderStatus.in_progress;
  assigned_to = some "tech-1";
  planned_start = 0;
  planned_end = 9;
  created_at = 0;
  procedure_template_id = "p1";
  description = "";
  notes = "";
  linked_wo_ids = [];
}

abbrev pub template : Template
template = record {
  id = "p1";
  name = "Pump";
  version = "1";
  manual_id = "m1";
  steps =
      record {
        index = 0;
        title = "Isolate";
        description = "";
        estimated_minutes = 5;
        critical = true;
        requires_photo = false;
        photo_criteria = none;
      }
      ∷ record {
        index = 1;
        title = "Inspect";
        description = "";
        estimated_minutes = 5;
        critical = false;
        requires_photo = true;
        photo_criteria = none;
      }
      ∷ [];
  critical_step_indices = 0 ∷ [];
  photo_required_step_indices = 1 ∷ [];
  estimated_minutes = 10;
}

abbrev pub plant : World
plant = record {
  sessions = ("s1", session) ∷ [];
  work_orders = ("o1", order) ∷ [];
  templates = ("p1", template) ∷ [];
  users = ("tech-1", technician) ∷ [];
  users_by_email = ("juan@planta.com", technician) ∷ [];
  blacklist = Blacklist.empty;
  event_store = Store.empty;
  photos = [];
  photo_index = [];
  assets = [];
  reports = [];
  report_index = [];
  manuals = [];
  chunks = [];
  files = [];
  indexings = [];
  validations = [];
  audit_log = Audit.empty;
  outbox = [];
  uuid = λ k. "u0";
  drawn = 0;
  clock = λ k. k;
  ticks = 0;
}

-- A reader for reasons that are no text
abbrev pub print : Value → String
print v = "?"

abbrev pub pausing : EventInput
pausing = record {
  event_id = "e1";
  type = "command";
  step_index = 0;
  payload = ("command", Value.text "pause") ∷ [];
}

abbrev pub completing : EventInput
completing = record { event_id = "e2"; type = "step_advance"; step_index = 0; payload = [] }

-- An event of the session, with the number `n`
abbrev pub event_at : ℕ → Event
event_at n = record {
  id = "e1";
  session_id = "s1";
  seq = n;
  type = "observation";
  payload = [];
  step_index = 0;
  created_at = 0;
}
