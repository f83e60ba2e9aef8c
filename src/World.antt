-- ===== src/World.antt =====
-- The state that the use cases share: the in-memory repositories, and what they take from the
-- process: identifiers (`uuid4`), the clock, and the messages that went out on the event bus.
pub mod Bus
pub mod Stable
use superion.Prelude.{ℕ, ◌+◌, String, List, Option, none, string_eq, ◌==◌, if◌then◌else◌}
use superion.Effect.{Exec, ok, modify}
use superion.Dict.{Dict, get, put}
use superion.Value.{Payload}
use superion.Domain.User.{User}
use superion.Domain.Session.{Session}
use superion.Domain.WorkOrder.{WorkOrder}
use superion.Domain.Template.{Template}
use superion.Domain.Photo.{Photo}
use superion.Domain.Asset.{Asset}
use superion.Domain.Report.{Report}
use superion.Domain.Manual.{Manual, ManualChunk}
use superion.Events.Store.{EventStore}
use superion.Audit.{AuditLog}
use superion.Security.Blacklist.{Blacklist}

-- A message on the bus (`dict[str, object]` with the keys of `event_to_ws_message`)
pub record Message : Type 0 where
  pub seq : ℕ
  pub type : String
  pub session_id : String
  pub created_at : ℕ
  pub payload : Payload

-- `validations` holds the ids of the photos whose validation was started in the background,
-- `indexings` those of the manuals whose indexing was.
-- `uuid` lists the results of the calls of `uuid4`, `clock` those of `clock.now()`, in their order.
pub record World : Type 0 where
  pub sessions : Dict String Session
  pub work_orders : Dict String WorkOrder
  pub templates : Dict String Template
  pub users : Dict String User
  pub users_by_email : Dict String User
  pub blacklist : Blacklist
  pub event_store : EventStore
  pub photos : Dict String Photo
  pub photo_index : Dict (String × String) String
  pub assets : Dict String Asset
  pub reports : Dict String Report
  pub report_index : Dict String String
  pub manuals : Dict String Manual
  pub chunks : Dict String (List ManualChunk)
  pub files : Dict String (List ℕ)
  pub validations : List String
  pub indexings : List String
  pub audit_log : AuditLog
  pub outbox : List Message
  pub uuid : ℕ → String
  pub drawn : ℕ
  pub clock : ℕ → ℕ
  pub ticks : ℕ

unfoldable pub uuid4 : Exec World String
uuid4 w = (ok (w.uuid w.drawn), record w { drawn = w.drawn + 1 })

unfoldable pub now : Exec World ℕ
now w = (ok (w.clock w.ticks), record w { ticks = w.ticks + 1 })
