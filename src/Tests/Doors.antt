-- ===== src/Tests/Doors.antt =====
-- The theorems on the signature of webhooks and on the reading of sessions.
use superion.Prelude.{
  ℕ, take, drop, String, Bool, true, ◌≡◌, ◌≢◌, ◌↔◌, Option, some, List, [], ◌∷◌, string_eq, ◌==◌,
  if◌then◌else◌,
}
use superion.Effect.{ok}
use superion.Dict.{get}
use superion.Domain.Session.{Session}
use superion.Events.Store.{events_of}
use superion.Events.Store.Invariant.{empty-IsLog}
use superion.Domain.Event.{Event}
use superion.Sessions.Reading.{list_events, CanRead, list_events_lem}
use superion.Security.Signature.{validate, IsSigned, validate_lem}
use superion.Tests.Fixtures.{technician, plant}

abbrev split : String → List String
split s = "t=5" ∷ "v1=ab" ∷ []

abbrev split_once : String → Option (String × String)
split_once s = if s == "t=5" then some ("t", "5") else some ("v1", "ab")

abbrev strip : String → String
strip s = s

abbrev int : String → Option ℕ
int s = some 5

abbrev decode : List ℕ → Option String
decode bytes = some "body"

abbrev is_ascii : String → Bool
is_ascii s = true

abbrev hmac : String → String → String
hmac secret text = "ab"

abbrev header : String
header = "t=5,v1=ab"

validate_lem_example :
    (validate split split_once strip int decode is_ascii hmac "secret" 300 7 [] (some header)
      ≡ ok tt)
    ↔ ((header ≢ "")
        × IsSigned split split_once strip int decode is_ascii hmac "secret" 300 7 [] (split header))
validate_lem_example =
    validate_lem split split_once strip int decode is_ascii hmac "secret" 300 7 [] header

list_events_lem_example :
    ((list_events "s1" 0 50 technician plant).1 ≡ plant)
    × ((es : List Event)
        → ((list_events "s1" 0 50 technician plant).0 ≡ ok es) ↔ (
            ((s : Session) × (get plant.sessions "s1" ≡ some s) × CanRead plant s technician)
            × (es ≡ take 50 (drop 0 (events_of plant.event_store "s1")))))
list_events_lem_example = list_events_lem plant "s1" technician empty-IsLog 0 50
