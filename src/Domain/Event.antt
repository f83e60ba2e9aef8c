-- ===== src/Domain/Event.antt =====
-- backend/src/domain/entities/session_event.py and value_objects/event_type.py. `step_index` is a
-- natural number, as the request model of POST /events demands (`Field(ge=0)`).
use superion.Prelude.{
  ℕ, String, Bool, true, false, Option, List, [], ◌∷◌, string_eq, ◌==◌, ◌||◌, not, ltb, any,
  if◌then◌else◌,
}
use superion.Effect.{validation, Error, domain_error, value_error, Result, ok, err}
use superion.Dict.{get, contains}
use superion.Value.{Payload, Value, is_text, is_none}

pub record Event : Type 0 where
  pub id : String
  pub session_id : String
  pub seq : ℕ
  pub type : String
  pub payload : Payload
  pub step_index : ℕ
  pub created_at : ℕ

-- `SessionEvent.__post_init__`
unfoldable pub make_event : Event → Result Event
make_event e = if ltb e.seq 1 then err value_error else ok e

-- `x in xs`, for a set of texts
abbrev pub is_one_of : String → List String → Bool
is_one_of s xs = any (λ x. x == s) xs

abbrev pub rest_event_types : List String
rest_event_types = "command" ∷ "measurement" ∷ "finding" ∷ "step_advance" ∷ "step_skip" ∷ []

abbrev pub ws_appended_types : List String
ws_appended_types = "measurement" ∷ "finding" ∷ "command" ∷ "utterance" ∷ "observation" ∷ []

abbrev pub invalid : Error
invalid = domain_error validation "VALIDATION_ERROR"

-- `v in ("...", ...)`, for the result of `payload.get(...)`
text_in : Option Value → List String → Bool
text_in v xs = any (λ x. is_text x v) xs

check : Bool → Result (Unit {0})
check b = if b then ok tt else err invalid

has_fields : List String → Payload → Bool
has_fields [] payload = true
has_fields (f ∷ fs) payload =
    let rest = has_fields fs payload in if contains payload f then rest else false

unfoldable pub validate_rest_event_payload : String → Payload → Result (Unit {0})
unfolding text_in check has_fields
validate_rest_event_payload event_type payload =
    if not (is_one_of event_type rest_event_types)
    then err invalid
    else if event_type == "command"
    then check
        (text_in (get payload "command") ("pause" ∷ "resume" ∷ "repeat_step" ∷ "go_back" ∷ []))
    else if event_type == "measurement"
    then check (has_fields ("name" ∷ "value" ∷ "unit" ∷ []) payload)
    else if event_type == "finding"
    then (if not (contains payload "text")
        then err invalid
        else check (
            is_none (get payload "severity")
            || text_in (get payload "severity") ("low" ∷ "med" ∷ "high" ∷ [])))
    else ok tt
