-- ===== src/Reports/Finalize/Refusals.antt =====
-- The checks of a finalization.
use superion.Prelude.{
  ℕ, ◌+◌, ◌-◌, String, ◌≡◌, Bool, true, false, some, List, arith, nat_eq, length,
}
use superion.Effect.{Result, ok, ◌>>=◌}
use superion.Domain.User.{User}
use superion.Domain.Session.{Session}
use superion.Domain.Template.{Template}
use superion.Domain.Report.{Content, Report}
use superion.Events.Store.{list_since}
use superion.World.{World}
use superion.World.Bus.{EventBus}
use superion.Sessions.Transition.Context.{Loaded}
use superion.Sessions.Transition.Holds.{load_session_context-eq}
use superion.Reports.Builder.{Python}
use superion.Reports.Live.{report_of, is_closed, ensure_report}
use superion.Reports.Finalize.{completes, check_completed, finalize_body, close_session}

-- What the first 500 events say of the last step
abbrev pub last_step_done : Python → World → String → Template → Result Bool
last_step_done py w sid t = completes py (length t.steps - 1) (list_since w.event_store sid 0 500)

module _ (py : Python) (bus : EventBus) (render : Content → Result (List ℕ × String))
    (sign : String → String) (ttl : ℕ) (w : World) (sid : String) (user : User) (s : Session)
    (t : Template) (l : Loaded sid user s t w) where
  -- If the checks pass and there is a draft, the rest is `close_session`.
  pub finalize_body-eq :
      (r : Report)
      → s.current_step_index + 1 ≡ length t.steps
      → last_step_done py w sid t ≡ ok true
      → report_of w sid ≡ some r
      → is_closed r.status ≡ false
      → finalize_body py bus render sign ttl sid user w
        ≡ close_session py bus render sign ttl sid s r w
  unfolding finalize_body check_completed ensure_report ◌>>=◌
  finalize_body-eq r e h found unclosed =
      ground (arith, load_session_context-eq bus w sid user s t l)
