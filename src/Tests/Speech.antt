-- ===== src/Tests/Speech.antt =====
-- The theorems on the voice assistant, for the session of `Fixtures`.
use text.Mathlib.TextEquality.{eq_iff}
use superion.Prelude.{◌≡◌, refl, true, false, none, some, [], ◌∷◌, arith, string_eq}
use superion.Effect.{Error, Result, ok, err}
use superion.Value.{Value, Payload}
use superion.Domain.User.{User}
use superion.World.Bus.{socket_bus}
use superion.Events.Append.{get_by_id_for_technician}
use superion.Sessions.History.{After, IsWellFormed}
use superion.Dict.{get}
use superion.Events.Store.Invariant.{empty-IsLog}
use superion.Voice.Tools.{add_finding, invalid_severity}
use superion.Voice.Query.{Retrieval, asset_not_found}
use superion.Voice.Dispatch.{execute_tool}
use superion.Voice.Webhook.{WebhookEventInput}
use superion.Voice.Deliveries.{receive, receive-After}
use superion.Voice.Foreign.{foreign_call}
use superion.Voice.Finding.{Logged, add_finding_lem}
use superion.Tests.Fixtures.{technician, session, plant}
use superion.Tests.Papers.{py}

-- A search that finds no manual
abbrev no_manual : Retrieval
no_manual w question asset_id model = err asset_not_found

abbrev float : Value → Result Value
float v = ok v

abbrev stranger : User
stranger = record technician { id = "tech-2" }

-- The body is read as this spoken finding.
abbrev spoken : WebhookEventInput
spoken = record {
  event = "utterance.final";
  session_id = some "s1";
  text = some "worn seal";
  speaker = none;
  audio_url = none;
  reason = none;
}

plant-IsWellFormed : IsWellFormed plant
unfolding get
plant-IsWellFormed = record { log = empty-IsLog; keyed = λ k s h. ground (arith, eq_iff "s1" k) }

receive-After_example : After plant (
    receive socket_bus py float no_manual
      (λ text. ("finding", "0.9"))
      (λ text. none)
      (λ s. s)
      (λ body header. ok tt)
      (λ body. ok spoken)
      (λ sid i. ok tt)
      (([], none, none) ∷ [])
      plant)
receive-After_example =
    receive-After socket_bus py float no_manual (λ text. ("finding", "0.9")) (λ text. none) (λ s. s)
      (λ body header. ok tt) (λ body. ok spoken) (λ sid i. ok tt) (([], none, none) ∷ []) plant
      plant-IsWellFormed

stranger-has-none : get_by_id_for_technician plant "s1" stranger.id ≡ none
unfolding get_by_id_for_technician get
stranger-has-none = refl

foreign_call_example :
    let (result, v) =
      execute_tool socket_bus py float no_manual "query_manual" "s1" [] stranger none plant in
    (e : Error) × (result ≡ err e) × (v ≡ plant)
foreign_call_example =
    foreign_call plant "s1" stranger stranger-has-none socket_bus py float no_manual "query_manual"
      [] none

stored : get plant.sessions "s1" ≡ some session
unfolding get
stored = refl

add_finding_lem_example :
    let (result, v) = add_finding socket_bus "s1" "worn seal" "low" technician none plant in
    (true ≡ true
      → (out : Payload) × (result ≡ ok out) × Logged "s1" session "worn seal" "low" plant out v)
    × (true ≡ false → (result ≡ err invalid_severity) × (v ≡ plant))
add_finding_lem_example =
    add_finding_lem socket_bus (λ m w. refl) plant "s1" technician session stored refl "worn seal"
      "low" none
