-- ===== src/Voice/Deliveries.antt =====
-- Deliveries to the webhook, one after the other.
use superion.Prelude.{ℕ, String, Option, none, some, List, [], ◌∷◌, string_eq}
use superion.Effect.{Result}
use superion.Effect.Rules.{state_of_outcome}
use superion.Value.{Value}
use superion.Domain.User.{User}
use superion.World.{World}
use superion.World.Bus.{EventBus}
use superion.World.Stable.{
  Stable-bind, Stable-pure, Stable-gets, Stable-or_raise, Stable-raise_if, Stable-lift, Stable-if,
}
use superion.Sessions.History.{IsWellFormed, After, After-refl, After-trans}
use superion.Sessions.Steps.{Keeps, pause-After}
use superion.Reports.Builder.{Python}
use superion.Voice.Query.{Retrieval}
use superion.Voice.Route.{Reading}
use superion.Voice.Webhook.{
  WebhookEventInput, handle_webhook, handle_event, utterance_final, conversation_ended,
  conversation_started, resolve_user, check_session, technician_of,
}
use superion.Voice.Keeps.{classify_and_route-Keeps, record_utterance-Keeps, require_session-Keeps}

module _ {w : World} where
  resolve_user-Keeps : (sid : Option String) (user : Option User) → Keeps w (resolve_user sid user)
  unfolding resolve_user technician_of check_session
  resolve_user-Keeps sid none = search (Stable-bind, Stable-or_raise, Stable-gets) depth 8
  resolve_user-Keeps none (some user) = Stable-pure user
  resolve_user-Keeps (some sid) (some user) =
      search (Stable-if, Stable-bind, Stable-pure, require_session-Keeps) depth 8

  conversation_started-Keeps :
      (ensure_session : String → ℕ → Result (Unit {0})) (event : WebhookEventInput)
      → Keeps w (conversation_started ensure_session event)
  unfolding conversation_started
  conversation_started-Keeps ensure_session event =
      search (Stable-bind, Stable-or_raise, Stable-gets, Stable-lift) depth 8

module _ (bus : EventBus) (py : Python) (float : Value → Result Value) (rag : Retrieval)
    (classify : String → String × String) (parse : String → Option Reading)
    (lower : String → String) where
  module _ {w : World} where
    utterance_final-Keeps :
        (event : WebhookEventInput) (user : User)
        → Keeps w (utterance_final bus py float rag classify parse lower event user)
    unfolding utterance_final
    utterance_final-Keeps event user = Stable-bind _ _ (Stable-or_raise _ _) λ sid.
        Stable-bind _ _ (Stable-or_raise _ _) λ text.
          Stable-if _ _ _ (record_utterance-Keeps bus sid text user "agent" none event.audio_url) (
            Stable-bind _ _
              (classify_and_route-Keeps bus py float rag classify parse sid text user
                event.audio_url)
              (λ _. Stable-pure tt))

    conversation_ended-Keeps :
        (event : WebhookEventInput) (user : User)
        → Keeps w (conversation_ended bus py float rag classify parse lower event user)
    unfolding conversation_ended
    conversation_ended-Keeps event user =
        Stable-bind _ _ (Stable-or_raise _ _)
          λ sid. Stable-bind _ _ (pause-After bus w sid user _ none) λ _. Stable-pure tt

  module _ (validate : List ℕ → Option String → Result (Unit {0}))
      (parse_body : List ℕ → Result WebhookEventInput)
      (ensure_session : String → ℕ → Result (Unit {0})) where
    handle_event-Keeps :
        {w : World} (event : WebhookEventInput) (user : User)
        → Keeps w (
            handle_event bus py float rag classify parse lower validate parse_body ensure_session
              event user)
    unfolding handle_event
    handle_event-Keeps event user =
        search
          (
            Stable-if, Stable-pure, conversation_started-Keeps, utterance_final-Keeps,
            conversation_ended-Keeps,
          )
          depth 8

    handle_webhook-Keeps :
        {w : World} (body : List ℕ) (signature : Option String) (user : Option User)
        → Keeps w (
            handle_webhook bus py float rag classify parse lower validate parse_body ensure_session
              body signature user)
    unfolding handle_webhook
    handle_webhook-Keeps body signature user = Stable-bind _ _ (Stable-lift _) λ _.
        Stable-bind _ _ (Stable-lift _) λ event. Stable-bind _ _ (Stable-raise_if _ _) λ _.
          Stable-bind _ _ (resolve_user-Keeps event.session_id user)
            λ caller. Stable-bind _ _ (handle_event-Keeps event caller) λ _. Stable-pure event.event

    -- A delivery: the body, the header with the signature, and the caller, if there is one
    abbrev pub Delivery : Type 0
    Delivery = List ℕ × Option String × Option User

    -- The webhooks come in one after the other; an error ends only its own delivery.
    unfoldable pub receive : List Delivery → World → World
    receive [] w = w
    receive ((body, signature, user) ∷ deliveries) w =
        receive deliveries
          (handle_webhook bus py float rag classify parse lower validate parse_body ensure_session
            body signature user w).1

    delivery-After :
        (w : World) (body : List ℕ) (signature : Option String) (user : Option User)
        → IsWellFormed w
        → After w
            (handle_webhook bus py float rag classify parse lower validate parse_body ensure_session
              body signature user w).1
    delivery-After w body signature user h =
        state_of_outcome (After w)
          (handle_webhook bus py float rag classify parse lower validate parse_body ensure_session
            body signature user w).0
          _ ((handle_webhook-Keeps body signature user).at w (After-refl w h))

    -- Whatever the webhook is sent, spoken commands and tool calls included, and whether its calls
    -- succeed or raise: the logs are still numbered without a gap and every session is under its id;
    -- each log is the old one with events appended; each session is still there, with the same
    -- order, technician and start; and one that was finalized is unchanged.
    pub receive-After :
        (deliveries : List Delivery) (w : World) → IsWellFormed w → After w (receive deliveries w)
    unfolding receive
    receive-After [] w h = After-refl w h
    receive-After ((body, signature, user) ∷ deliveries) w h =
        let step = delivery-After w body signature user h in
        After-trans step (receive-After deliveries _ step.well_formed)
