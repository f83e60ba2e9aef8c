-- ===== src/Reports/Live/Bus.antt =====
-- The bus of the server: its global handler keeps the reports up to date. The handler's own message,
-- `report.updated`, comes back to it and is ignored, so the bus below it is the one it publishes on.
use text.Mathlib.TextEquality.{eq_iff}
use superion.Prelude.{ℕ, String, Bool, ◌≡◌, ◌∙◌, refl, arith}
use superion.Effect.{Exec, pure, ◌>>◌}
use superion.Effect.Rules.{Ends, state_of_outcome, Outcome-of_state}
use superion.Dict.{Dict}
use superion.Value.{Value}
use superion.Domain.Report.{Report}
use superion.World.{World, Message}
use superion.World.Bus.{EventBus, SameStores}
use superion.World.Stable.{Stable, Stable-bind}
use superion.Reports.Builder.{Python}
use superion.Reports.Live.{save_report, on_bus_message}
use superion.Reports.Live.Keeps.{IsKept, on_bus_message-Stable}

SameStores-refl : (w : World) → SameStores w w
SameStores-refl w = record {
  sessions = refl;
  work_orders = refl;
  templates = refl;
  users = refl;
  users_by_email = refl;
  blacklist = refl;
  event_store = refl;
  photos = refl;
  photo_index = refl;
  assets = refl;
  manuals = refl;
  chunks = refl;
  files = refl;
  validations = refl;
  indexings = refl;
  audit_log = refl;
  uuid = refl;
  clock = refl;
}

SameStores-trans : {u v w : World} → SameStores u v → SameStores v w → SameStores u w
SameStores-trans h k = record {
  sessions = k.sessions ∙ h.sessions;
  work_orders = k.work_orders ∙ h.work_orders;
  templates = k.templates ∙ h.templates;
  users = k.users ∙ h.users;
  users_by_email = k.users_by_email ∙ h.users_by_email;
  blacklist = k.blacklist ∙ h.blacklist;
  event_store = k.event_store ∙ h.event_store;
  photos = k.photos ∙ h.photos;
  photo_index = k.photo_index ∙ h.photo_index;
  assets = k.assets ∙ h.assets;
  manuals = k.manuals ∙ h.manuals;
  chunks = k.chunks ∙ h.chunks;
  files = k.files ∙ h.files;
  validations = k.validations ∙ h.validations;
  indexings = k.indexings ∙ h.indexings;
  audit_log = k.audit_log ∙ h.audit_log;
  uuid = k.uuid ∙ h.uuid;
  clock = k.clock ∙ h.clock;
}

-- An action that ends in the same stores keeps them.
Ends-Stable :
    {A : Type 0} (u : World) (m : Exec World A) → Ends SameStores m → Stable (SameStores u) m
Ends-Stable u m h = record {
  at = λ w p. Outcome-of_state (SameStores u) (m w).0 (m w).1 (SameStores-trans p (h.at w));
}

reported :
    (w : World) (rs : Dict String Report) (index : Dict String String) (drawn ticks : ℕ)
    → SameStores w (record w { reports = rs; report_index = index; drawn = drawn; ticks = ticks })
reported w rs index drawn ticks = record {
  sessions = refl;
  work_orders = refl;
  templates = refl;
  users = refl;
  users_by_email = refl;
  blacklist = refl;
  event_store = refl;
  photos = refl;
  photo_index = refl;
  assets = refl;
  manuals = refl;
  chunks = refl;
  files = refl;
  validations = refl;
  indexings = refl;
  audit_log = refl;
  uuid = refl;
  clock = refl;
}

SameStores-IsKept : (u : World) → IsKept (SameStores u)
unfolding save_report
SameStores-IsKept u = record {
  ticked = λ w n p. SameStores-trans p (reported _ _ _ _ _);
  created = λ w r e f p. SameStores-trans p (reported _ _ _ _ _);
  updated = λ w sid r c at e f p. SameStores-trans p (reported _ _ _ _ _);
}

module _ (py : Python) (equal : Value → Value → Bool) (bus : EventBus) where
  abbrev publish_live : Message → Exec World (Unit {0})
  publish_live m = bus.publish m >> on_bus_message py equal bus m

  publish_live-Stable : (u : World) (m : Message) → Stable (SameStores u) (publish_live m)
  publish_live-Stable u m = Stable-bind _ _ (Ends-Stable u _ (bus.publish-SameStores m)) λ _.
      on_bus_message-Stable py (SameStores-IsKept u) equal bus
        (λ n e. Ends-Stable u _ (bus.publish-SameStores n)) m

  -- If the bus below it writes to no repository but that of the reports, neither does the bus with
  -- the live report on it, whatever message is published and whether its handler returns or raises:
  -- every other repository, the storage of files, the audit log and the sources of identifiers and
  -- times stay as they are.
  pub publish_live-SameStores : (m : Message) → Ends SameStores (publish_live m)
  publish_live-SameStores m = record {
    at = λ w.
        state_of_outcome (SameStores w) (publish_live m w).0 _
          ((publish_live-Stable w m).at w (SameStores-refl w));
  }

  abbrev pub live_bus : EventBus
  live_bus = record { publish = publish_live; publish-SameStores = publish_live-SameStores }

  -- The handler does nothing on its own message.
  handler-report_updated :
      (m : Message) → m.type ≡ "report.updated" → on_bus_message py equal bus m ≡ pure tt
  unfolding on_bus_message
  handler-report_updated m h = ground (
    arith,
    eq_iff "step.completed" m.type,
    eq_iff "photo" m.type,
    eq_iff "photo.validated" m.type,
    eq_iff "event.appended" m.type,
    eq_iff "report.updated" "step.completed",
    eq_iff "report.updated" "photo",
    eq_iff "report.updated" "photo.validated",
    eq_iff "report.updated" "event.appended",
  )
