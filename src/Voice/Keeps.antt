-- ===== src/Voice/Keeps.antt =====
-- What the voice assistant may do to sessions: what any other use case may.
use superion.Prelude.{ℕ, ◌+◌, String, Option, none, some, string_eq, ◌==◌}
use superion.Effect.{Result, pure, ◌>>=◌}
use superion.Effect.Rules.{Ensures-weaken}
use superion.Value.{Value, Payload}
use superion.Domain.User.{User}
use superion.Domain.Session.{Session}
use superion.World.{World, uuid4}
use superion.World.Bus.{EventBus}
use superion.World.Stable.{
  Stable-bind, Stable-pure, Stable-gets, Stable-or_raise, Stable-raise_if, Stable-raise,
  Stable-lift, Stable-if,
}
use superion.Events.Append.{require_session, id_or_uuid}
use superion.Sessions.Current.{get_current_step, current_step}
use superion.Sessions.History.{After}
use superion.Sessions.Steps.{
  Keeps, Keeps-emit, require_session-Stored, pause-After, mark_step_complete-After, skip_step-After,
}
use superion.Sessions.Transition.Context.{Ensures-load_session_context}
use superion.Reports.Builder.{Python}
use superion.Voice.Tools.{
  record_utterance, record_observation, log_finding, add_finding, add_measurement, request_photo,
  complete_step, tell_current_step,
}
use superion.Voice.Query.{Retrieval, query_manual, answer_question, resolve_asset}
use superion.Voice.Dispatch.{execute_tool, run_tool}
use superion.Voice.Route.{Reading, classify_and_route, route}

module _ {w : World} where
  drawn-After : {v : World} (n : ℕ) → After w v → After w (record v { drawn = n })
  drawn-After n a = record {
    well_formed = record { log = a.well_formed.log; keyed = a.well_formed.keyed };
    extends = a.extends;
    evolves = a.evolves;
    origin = a.origin;
    work_orders = a.work_orders;
    templates = a.templates;
    uuid = a.uuid;
  }

  uuid4-Keeps : Keeps w uuid4
  unfolding uuid4
  uuid4-Keeps = record { at = λ v p. drawn-After (v.drawn + 1) p }

  id_or_uuid-Keeps : (id : Option String) → Keeps w (id_or_uuid id)
  unfolding id_or_uuid
  id_or_uuid-Keeps none = uuid4-Keeps
  id_or_uuid-Keeps (some id) = Stable-if (id == "") _ _ uuid4-Keeps (Stable-pure id)

  pub require_session-Keeps : (sid : String) (user : User) → Keeps w (require_session sid user)
  require_session-Keeps sid user =
      Ensures-weaken (λ s v h. h.0) (λ v h. h) (require_session-Stored sid user)

  get_current_step-Keeps :
      (digits : ℕ → String) (sid : String) (user : User)
      → Keeps w (get_current_step digits sid user)
  unfolding get_current_step current_step
  get_current_step-Keeps digits sid user =
      Stable-bind _ _
        (Ensures-weaken (λ c v h. h.0) (λ v h. h) (Ensures-load_session_context (After w) sid user))
        λ c. search (Stable-if, Stable-pure, Stable-bind, Stable-or_raise) depth 8

ruleset voice_rules = (
  Keeps-emit, uuid4-Keeps, id_or_uuid-Keeps, require_session-Keeps, get_current_step-Keeps,
  Stable-bind, Stable-pure, Stable-gets, Stable-or_raise, Stable-raise_if, Stable-lift,
)

module _ (bus : EventBus) {w : World} where
  pub record_utterance-Keeps :
      (sid text : String) (user : User) (speaker : String) (intent audio_ref : Option String)
      → Keeps w (record_utterance bus sid text user speaker intent audio_ref)
  unfolding record_utterance
  record_utterance-Keeps sid text user speaker intent audio_ref = search voice_rules depth 8

  record_observation-Keeps :
      (sid text : String) (user : User) (source : String)
      → Keeps w (record_observation bus sid text user source)
  unfolding record_observation
  record_observation-Keeps sid text user source = search voice_rules depth 8

  add_finding-Keeps :
      (sid text severity : String) (user : User) (call_id : Option String)
      → Keeps w (add_finding bus sid text severity user call_id)
  unfolding add_finding log_finding
  add_finding-Keeps sid text severity user call_id = search voice_rules depth 12

  add_measurement-Keeps :
      (sid name : String) (value : Value) (unit : String) (user : User) (call_id : Option String)
      → Keeps w (add_measurement bus sid name value unit user call_id)
  unfolding add_measurement
  add_measurement-Keeps sid name value unit user call_id = search voice_rules depth 12

  request_photo-Keeps :
      (sid : String) (i : ℕ) (criteria : String) (user : User) (call_id : Option String)
      → Keeps w (request_photo bus sid i criteria user call_id)
  unfolding request_photo
  request_photo-Keeps sid i criteria user call_id = search voice_rules depth 12

  module _ (rag : Retrieval) where
    resolve_asset-Keeps :
        (session : Session) (asset_id : Option String) (user : User)
        → Keeps w (resolve_asset session asset_id user)
    unfolding resolve_asset
    resolve_asset-Keeps session (some asset_id) user = Stable-pure asset_id
    resolve_asset-Keeps session none user = search voice_rules depth 8

    query_manual-Keeps :
        (sid question : String) (user : User) (asset_id call_id : Option String)
        → Keeps w (query_manual bus rag sid question user asset_id call_id)
    unfolding query_manual answer_question
    query_manual-Keeps sid question user asset_id call_id =
        Stable-bind _ _ (require_session-Keeps sid user) λ session.
          Stable-bind _ _ (resolve_asset-Keeps session asset_id user)
            λ asset. search voice_rules depth 16

  module _ (py : Python) where
    complete_step-Keeps :
        (sid : String) (i : Option ℕ) (user : User) (call_id : Option String)
        → Keeps w (complete_step bus py sid i user call_id)
    unfolding complete_step
    complete_step-Keeps sid i user call_id =
        Stable-bind _ _ (require_session-Keeps sid user) λ session.
          Stable-bind _ _ (id_or_uuid-Keeps call_id) λ id.
            Stable-bind _ _ (Keeps-emit bus _ _ _ _ _) λ e.
              Stable-bind _ _ (mark_step_complete-After bus w sid user _ "voice" none) λ n.
                Stable-bind _ _ (get_current_step-Keeps py.digits sid user) λ next. Stable-pure _

    tell_current_step-Keeps :
        (sid : String) (user : User) (call_id : Option String)
        → Keeps w (tell_current_step bus py sid user call_id)
    unfolding tell_current_step
    tell_current_step-Keeps sid user call_id = search voice_rules depth 10

    module _ (float : Value → Result Value) (rag : Retrieval) where
      run_tool-Keeps :
          (tool sid : String) (arguments : Payload) (user : User) (call_id : Option String)
          → Keeps w (run_tool bus py float rag tool sid arguments user call_id)
      unfolding run_tool
      run_tool-Keeps tool sid arguments user call_id =
          Stable-if (tool == "query_manual") _ _ (query_manual-Keeps rag sid _ user _ call_id) (
            Stable-if (tool == "get_current_step") _ _ (tell_current_step-Keeps sid user call_id) (
              Stable-if (tool == "mark_step_complete") _ _
                (Stable-bind _ _ (Stable-lift _) (λ i. complete_step-Keeps sid i user call_id))
                (Stable-if (tool == "request_evidence_photo") _ _
                  (Stable-bind _ _ (Stable-or_raise _ _) λ given.
                    Stable-bind _ _ (Stable-lift _) λ i. request_photo-Keeps sid i _ user call_id)
                  (Stable-if (tool == "add_finding") _ _ (add_finding-Keeps sid _ _ user call_id) (
                    Stable-if (tool == "add_measurement") _ _
                      (Stable-bind _ _ (Stable-or_raise _ _) λ given.
                        Stable-bind _ _ (Stable-lift _) λ value.
                          Stable-bind _ _ (Stable-or_raise _ _)
                            λ unit. add_measurement-Keeps sid _ value _ user call_id)
                      (Stable-if (tool == "skip_step") _ _
                        (Stable-bind _ _ (Stable-or_raise _ _) λ given.
                          Stable-bind _ _ (Stable-lift _) λ i.
                            Stable-bind _ _ (skip_step-After bus w sid user i _ none)
                              λ n. Stable-pure _)
                        (Stable-if (tool == "pause_session") _ _
                          (Stable-bind _ _ (pause-After bus w sid user "voice" none)
                            λ n. Stable-pure _)
                          (Stable-raise _))))))))

      pub execute_tool-Keeps :
          (tool sid : String) (arguments : Payload) (user : User) (call_id : Option String)
          → Keeps w (execute_tool bus py float rag tool sid arguments user call_id)
      unfolding execute_tool
      execute_tool-Keeps tool sid arguments user call_id =
          Stable-bind _ _ (Stable-raise_if _ _)
            (λ _. run_tool-Keeps tool sid arguments user call_id)

      module _ (classify : String → String × String) (parse : String → Option Reading) where
        call-Keeps :
            (tool sid : String) (arguments : Payload) (user : User) (call_id : Option String)
            → Keeps w
                (execute_tool bus py float rag tool sid arguments user call_id >>= λ _. pure tt)
        call-Keeps tool sid arguments user call_id =
            Stable-bind _ _ (execute_tool-Keeps tool sid arguments user call_id)
              (λ _. Stable-pure tt)

        route-Keeps :
            (session : Session) (intent sid text : String) (user : User) (call_id : String)
            → Keeps w (route bus py float rag classify parse session intent sid text user call_id)
        unfolding route
        route-Keeps session intent sid text user call_id =
            search
              (
                Stable-if, Stable-pure, Stable-bind, Stable-or_raise, call-Keeps,
                record_observation-Keeps,
              )
              depth 12

        pub classify_and_route-Keeps :
            (sid text : String) (user : User) (audio_ref : Option String)
            → Keeps w (classify_and_route bus py float rag classify parse sid text user audio_ref)
        unfolding classify_and_route
        classify_and_route-Keeps sid text user audio_ref =
            Stable-bind _ _ (require_session-Keeps sid user) λ session.
              Stable-bind _ _ (record_utterance-Keeps sid text user _ _ audio_ref) λ _.
                Stable-bind _ _ uuid4-Keeps λ call_id.
                  Stable-bind _ _ (route-Keeps session _ sid text user call_id) λ _. Stable-pure _
