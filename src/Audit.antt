-- ===== src/Audit.antt =====
-- The audit log: backend/src/domain/entities/audit_entry.py, value_objects/action.py and
-- backend/src/infrastructure/persistence/in_memory/audit_log_repository.py.
pub mod Pages
pub mod Log
use superion.Prelude.{
  ℕ, zero, suc, ◌+◌, String, Bool, true, false, Option, none, some, List, [], ◌∷◌, ◌++◌, nat_eq,
  string_eq, ◌==◌, ◌&&◌, ◌||◌, not, ltb, length, take, drop, keep, if◌then◌else◌,
}
use superion.Effect.{value_error, Result, ok, err}
use superion.Dict.{Dict, get, put, contains}
use superion.Value.{Payload}

pub data AuditAction : Type 0 where
  login logout start_session finalize_session manual_upload manual_archive admin_override :
      AuditAction

-- `AuditAction.value`
abbrev pub value : AuditAction → String
value AuditAction.login = "login"
value AuditAction.logout = "logout"
value AuditAction.start_session = "start_session"
value AuditAction.finalize_session = "finalize_session"
value AuditAction.manual_upload = "manual_upload"
value AuditAction.manual_archive = "manual_archive"
value AuditAction.admin_override = "admin_override"

pub record AuditEntry : Type 0 where
  pub id : String
  pub actor_user_id : String
  pub action : AuditAction
  pub target_type : String
  pub target_id : String
  pub payload : Payload
  pub created_at : ℕ

-- `AuditEntry.__post_init__`
unfoldable pub make_entry : AuditEntry → Result AuditEntry
make_entry e =
    if e.actor_user_id == "" || e.target_type == "" || e.target_id == ""
    then err value_error
    else ok e

pub record AuditLog : Type 0 where
  pub entries : Dict String AuditEntry
  pub order : List String

abbrev pub empty : AuditLog
empty = record { entries = []; order = [] }

-- An id that is there already is left as it is.
unfoldable pub append : AuditLog → AuditEntry → AuditLog
append log e =
    if contains log.entries e.id
    then log
    else record { entries = put log.entries e.id e; order = log.order ++ e.id ∷ [] }

unfoldable pub get_by_id : AuditLog → String → Option AuditEntry
get_by_id log entry_id = get log.entries entry_id

-- `[self._entries[eid] for eid in self._order if eid in self._entries]`
unfoldable pub in_order : Dict String AuditEntry → List String → List AuditEntry
in_order entries [] = []
in_order entries (id ∷ order) =
    let rest = in_order entries order in elim (get entries id) [ some e ↦ e ∷ rest | none ↦ rest ]

-- `if x is not None: items = [e for e in items if f(e) == x]`
abbrev pub filter_by : Option String → (AuditEntry → String) → List AuditEntry → List AuditEntry
filter_by none f items = items
filter_by (some x) f items = keep (λ e. f e == x) items

-- The `for` loop over `enumerate(items)`: one more than the first index of the cursor, or 0
pub start_after : String → ℕ → List AuditEntry → ℕ
start_after cursor idx [] = 0
start_after cursor idx (e ∷ items) =
    if e.id == cursor then idx + 1 else start_after cursor (idx + 1) items

abbrev pub start_of : Option String → List AuditEntry → ℕ
start_of none items = 0
start_of (some cursor) items = start_after cursor 0 items

-- `page[-1].id`
abbrev pub last_id : List AuditEntry → Option String
last_id [] = none
last_id (e ∷ []) = some e.id
last_id (e ∷ f ∷ page) = last_id (f ∷ page)

pub page_from : ℕ → ℕ → List AuditEntry → List AuditEntry × Option String
page_from start limit items =
    let page = take limit (drop start items) in
    (
      page,
      (if length page == limit && ltb (start + limit) (length items) then last_id page else none),
    )

-- The items that the filters of `list_entries` leave
unfoldable pub filtered : AuditLog → Option String → Option String → Option String → List AuditEntry
filtered log actor_user_id action target_type =
    filter_by target_type (λ e. e.target_type)
      (filter_by action (λ e. value e.action)
        (filter_by actor_user_id (λ e. e.actor_user_id) (in_order log.entries log.order)))

unfoldable pub list_entries :
    AuditLog
    → Option String
    → Option String
    → Option String
    → ℕ
    → Option String
    → List AuditEntry × Option String
unfolding page_from filtered in_order start_after
list_entries log actor_user_id action target_type limit cursor =
    let items = filtered log actor_user_id action target_type in
    page_from (start_of cursor items) limit items
