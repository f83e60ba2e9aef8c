-- ===== src/Voice/Query.antt =====
-- The question tool: backend/src/application/use_cases/voice/tool_query_manual.py. The search in the
-- manuals behind it (application/use_cases/rag/query.py) is a parameter: a function of the state, for
-- it only reads. Its scores are floating-point numbers.
use superion.Prelude.{ℕ, String, Bool, Option, none, some, List, [], ◌∷◌, string_eq}
use superion.Effect.{
  not_found, Error, domain_error, Result, Exec, pure, gets, lift, or_raise, ◌>>=◌,
}
use superion.Dict.{get}
use superion.Value.{Value, Items, Fields, Payload}
use superion.Domain.User.{User}
use superion.Domain.Session.{Session}
use superion.Domain.Asset.{Asset}
use superion.World.{World}
use superion.World.Bus.{EventBus}
use superion.Events.Append.{emit_system_event, require_session, id_or_uuid}
use superion.Sessions.Repository.{get_order_for_technician}
use superion.Sessions.Transition.{work_order_not_found}
use superion.Voice.Tools.{called_payload}

pub record CitationDto : Type 0 where
  pub manual_id : String
  pub manual_version : ℕ
  pub page : ℕ
  pub section_path : String
  pub chunk_id : String
  pub snippet : String

-- The confidence is a float.
pub record RagQueryOutput : Type 0 where
  pub answer : String
  pub citations : List CitationDto
  pub confidence : Value
  pub abstained : Bool

-- `RagQueryUseCase.execute`, of the state, the question, the asset's id and its model
abbrev pub Retrieval : Type 0
Retrieval = World → String → String → String → Result RagQueryOutput

abbrev pub asset_not_found : Error
asset_not_found = domain_error not_found "NOT_FOUND"

abbrev citation : CitationDto → Value
citation c = Value.object (
    Fields.field "manual_id" (Value.text c.manual_id) (
      Fields.field "manual_version" (Value.num c.manual_version) (
        Fields.field "page" (Value.num c.page) (
          Fields.field "section_path" (Value.text c.section_path) (
            Fields.field "chunk_id" (Value.text c.chunk_id)
              (Fields.field "snippet" (Value.text c.snippet) Fields.end))))))

abbrev citation_list : List CitationDto → Items
citation_list [] = Items.nil
citation_list (c ∷ cs) = Items.cons (citation c) (citation_list cs)

-- The asset that is asked about: the one that is named, or that of the session's order
unfoldable pub resolve_asset : Session → Option String → User → Exec World String
resolve_asset session (some asset_id) current_user = pure asset_id
resolve_asset session none current_user = do
  assigned ← gets (λ w. get_order_for_technician w session.work_order_id current_user.id)
  order ← or_raise assigned work_order_not_found
  pure order.asset_id

module _ (bus : EventBus) (rag : Retrieval) where
  -- The part of `execute` behind the look-ups
  unfoldable pub answer_question :
      String → String → Asset → String → ℕ → Option String → Exec World Payload
  answer_question session_id question asset asset_id step_index call_id = do
    _ ←
        emit_system_event bus session_id "assistant.answering" step_index
          (("step_index", Value.num step_index) ∷ ("query", Value.text question) ∷ []) none
    tool_call_id ← id_or_uuid call_id
    _ ←
        emit_system_event bus session_id "tool.called" step_index
          (called_payload "query_manual"
            (Fields.field "question" (Value.text question)
              (Fields.field "asset_id" (Value.text asset_id) Fields.end))
            tool_call_id)
          none
    answered ← gets (λ w. rag w question asset_id asset.model)
    rag_result ← lift answered
    let citations = Value.list (citation_list rag_result.citations)
    _ ←
        emit_system_event bus session_id "assistant.answered" step_index
          (("step_index", Value.num step_index)
            ∷ ("query", Value.text question)
            ∷ ("answer_text", Value.text rag_result.answer)
            ∷ ("citations", citations)
            ∷ ("confidence", rag_result.confidence)
            ∷ [])
          none
    pure (
        ("answer", Value.text rag_result.answer)
        ∷ ("citations", citations)
        ∷ ("confidence", rag_result.confidence)
        ∷ ("abstained", Value.bool rag_result.abstained)
        ∷ [])

  -- `ToolQueryManualUseCase.execute`
  unfoldable pub query_manual :
      String → String → User → Option String → Option String → Exec World Payload
  query_manual session_id question current_user asset_id call_id = do
    session ← require_session session_id current_user
    resolved_asset_id ← resolve_asset session asset_id current_user
    found ← gets (λ w. get w.assets resolved_asset_id)
    asset ← or_raise found asset_not_found
    answer_question session_id question asset resolved_asset_id session.current_step_index call_id
