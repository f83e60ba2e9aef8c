-- ===== src/Sessions/Reachable.antt =====
-- The API as a transition system: `POST /work-orders/{id}/start` and `POST /sessions/{id}/events`, in
-- any order, by any users.
use superion.Prelude.{String, [], ◌∷◌}
use superion.Effect.Rules.{state_of_outcome}
use superion.Value.{Value}
use superion.Domain.User.{User}
use superion.World.{World}
use superion.World.Bus.{EventBus}
use superion.Events.Post
use superion.Events.Post.{EventInput}
use superion.Events.Post.Steps.{serve-After, serve}
use superion.Sessions.Start
use superion.Sessions.Start.{StartSessionOutput}
use superion.Sessions.Exclusive.{IsSound, After-IsSound}
use superion.Sessions.Opening.{execute-IsSound}

-- One request, whether it succeeds or raises
pub data Step (bus : EventBus) (str : Value → String) : World → World → Type 0 where
  started :
      {w : World} (work_order_id : String) (user : User)
      → Step bus str w (Start.execute work_order_id user w).1
  posted :
      {w : World} (session_id : String) (body : EventInput) (user : User)
      → Step bus str w (Post.execute bus str session_id body user w).1

-- A run of requests
pub data Run (bus : EventBus) (str : Value → String) : World → World → Type 0 where
  stay : {w : World} → Run bus str w w
  step : {w v u : World} → Step bus str w v → Run bus str v u → Run bus str w u

module _ (bus : EventBus) (str : Value → String) where
  Step-IsSound : (w v : World) → Step bus str w v → IsSound w → IsSound v
  unfolding serve
  Step-IsSound w v (started order_id user) h =
      state_of_outcome IsSound (Start.execute order_id user w).0 _
        ((execute-IsSound order_id user).at w h)
  Step-IsSound w v (posted sid body user) h =
      After-IsSound (serve-After bus str ((sid, body, user) ∷ []) w h.well_formed) h

  -- In every world that requests reach from a sound one, whatever they ask for and whether they
  -- succeed or raise, the logs are numbered without a gap, every session is under its id, and no
  -- work order has two open sessions.
  pub Run-IsSound : (w v : World) → Run bus str w v → IsSound w → IsSound v
  Run-IsSound w v stay h = h
  Run-IsSound w v (step {v = u} s r) h = Run-IsSound u v r (Step-IsSound w u s h)
