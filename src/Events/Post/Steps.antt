-- ===== src/Events/Post/Steps.antt =====
-- POST /events as a step of the system, and runs of such requests.
use superion.Prelude.{String, none, some, List, [], ◌∷◌, string_eq, ◌==◌}
use superion.Effect.Rules.{
  state_of_outcome, Ensures-bind, Ensures-pure, Ensures-raise, Ensures-gets, Ensures-if,
}
use superion.Dict.{get}
use superion.Value.{Value, is_text}
use superion.Domain.User.{User}
use superion.World.{World}
use superion.World.Bus.{EventBus}
use superion.Events.Post.{EventInput, dispatch, execute, unsupported, reason_text}
use superion.Sessions.History.{IsWellFormed, After, After-refl, After-trans}
use superion.Sessions.Steps.{
  Keeps, pause-After, resume-After, mark_step_complete-After, skip_step-After, append-After,
}

module _ (bus : EventBus) (str : Value → String) where
  module _ (w : World) (sid : String) (body : EventInput) (user : User) where
    dispatch-After : Keeps w (dispatch bus str sid body user)
    unfolding dispatch
    dispatch-After =
        Ensures-if (body.type == "command") _ _
          (λ _.
            Ensures-if (is_text "pause" (get body.payload "command")) _ _
              (λ _. pause-After bus w sid user "user" (some body.event_id))
              (λ _.
                Ensures-if (is_text "resume" (get body.payload "command")) _ _
                  (λ _. resume-After bus w sid user "user" (some body.event_id))
                  (λ _. Ensures-raise unsupported (λ v p. p))))
          (λ _.
            Ensures-if (body.type == "step_advance") _ _
              (λ _.
                mark_step_complete-After bus w sid user body.step_index "command"
                  (some body.event_id))
              (λ _.
                Ensures-if (body.type == "step_skip") _ _
                  (λ _.
                    skip_step-After bus w sid user body.step_index
                      (reason_text str (get body.payload "reason")) (some body.event_id))
                  (λ _.
                    append-After bus w sid user body.event_id body.type body.step_index body.payload
                      none)))

    pub execute-After : Keeps w (execute bus str sid body user)
    unfolding execute
    execute-After =
        Ensures-bind (λ _. After w) _ _ (Ensures-gets _ (λ v p. p))
          (elim [ some e ↦ Ensures-pure e.seq (λ v p. p) | none ↦ dispatch-After ])

  -- A request: the session of the path, the body and the authenticated user
  abbrev pub Request : Type 0
  Request = String × EventInput × User

  -- The server handles the requests one after the other; an error ends only its own request.
  unfoldable pub serve : List Request → World → World
  serve [] w = w
  serve ((sid, body, user) ∷ requests) w = serve requests (execute bus str sid body user w).1

  execute_step :
      (w : World) (sid : String) (body : EventInput) (user : User)
      → IsWellFormed w
      → After w (execute bus str sid body user w).1
  execute_step w sid body user h =
      state_of_outcome (After w) (execute bus str sid body user w).0 _
        ((execute-After w sid body user).at w (After-refl w h))

  -- After any requests to POST /events, whatever they are and whether they succeed or raise: the
  -- logs are still numbered without a gap and every session is under its id; each log is the old
  -- one with events appended; each session is still there, with the same order, technician and
  -- start; and one that was finalized is unchanged.
  pub serve-After :
      (requests : List Request) (w : World) → IsWellFormed w → After w (serve requests w)
  unfolding serve
  serve-After [] w h = After-refl w h
  serve-After ((sid, body, user) ∷ requests) w h =
      let step : After w (execute bus str sid body user w).1 = execute_step w sid body user h in
      After-trans step (serve-After requests (execute bus str sid body user w).1 step.well_formed)
