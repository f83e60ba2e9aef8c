-- ===== src/World/Bus.antt =====
-- The port `IEventBus` of backend/src/domain/ports/event_bus.py, as the use cases take it. A handler
-- that the bus calls may raise, and the exception reaches the publisher.
use superion.Prelude.{◌≡◌, refl, [], ◌∷◌, ◌++◌}
use superion.Effect.{Exec, ok}
use superion.Effect.Rules.{Ends}
use superion.World.{World, Message}

-- The second world is the first but for the reports, the messages that went out, and how many
-- identifiers and times have been drawn.
pub record SameStores (w v : World) : Type 0 where
  pub sessions : v.sessions ≡ w.sessions
  pub work_orders : v.work_orders ≡ w.work_orders
  pub templates : v.templates ≡ w.templates
  pub users : v.users ≡ w.users
  pub users_by_email : v.users_by_email ≡ w.users_by_email
  pub blacklist : v.blacklist ≡ w.blacklist
  pub event_store : v.event_store ≡ w.event_store
  pub photos : v.photos ≡ w.photos
  pub photo_index : v.photo_index ≡ w.photo_index
  pub assets : v.assets ≡ w.assets
  pub manuals : v.manuals ≡ w.manuals
  pub chunks : v.chunks ≡ w.chunks
  pub files : v.files ≡ w.files
  pub validations : v.validations ≡ w.validations
  pub indexings : v.indexings ≡ w.indexings
  pub audit_log : v.audit_log ≡ w.audit_log
  pub uuid : v.uuid ≡ w.uuid
  pub clock : v.clock ≡ w.clock

-- The handlers on the bus forward to sockets and rebuild the report; they write to no other
-- repository.
pub record EventBus : Type 0 where
  pub publish : Message → Exec World (Unit {0})
  pub publish-SameStores : (m : Message) → Ends SameStores (publish m)

-- A bus with the handlers of open sockets only: each message goes out.
abbrev deliver : Message → Exec World (Unit {0})
deliver m w = (ok tt, record w { outbox = w.outbox ++ m ∷ [] })

pub deliver-SameStores : (m : Message) → Ends SameStores (deliver m)
deliver-SameStores m = record {
  at = λ w. record {
    sessions = refl;
    work_orders = refl;
    templates = refl;
    users = refl;
    users_by_email = refl;
    blacklist = refl;
    event_store = refl;
    photos = refl;
    photo_index = refl;
    assets = refl;
    manuals = refl;
    chunks = refl;
    files = refl;
    validations = refl;
    indexings = refl;
    audit_log = refl;
    uuid = refl;
    clock = refl;
  };
}

abbrev pub socket_bus : EventBus
socket_bus = record { publish = deliver; publish-SameStores = deliver-SameStores }
