-- ===== src/Tests/Requests.antt =====
-- The theorems on sessions and their events, at the plant of `Fixtures`.
use text.Mathlib.TextEquality.{eq_iff}
use superion.Prelude.{
  ℕ, String, ◌≡◌, ◌∙◌, sym, ap, refl, true, false, none, some, [], ◌∷◌, arith, string_eq,
}
use superion.Effect.{ok, err, ◌>>=◌}
use superion.Dict.{get, put}
use superion.Domain.Session
use superion.Domain.Session.{Session, SessionStatus}
use superion.Domain.Event.{make_event}
use superion.Events.Store.{
  events_of, next_seq, append, record_event, has_accepted_photo, get_by_event_id, counter_of,
}
use superion.Events.Store.Invariant.{empty-IsLog}
use superion.Events.Append.{
  emit_system_event, store_event, append_event, id_or_uuid, require_session,
  get_by_id_for_technician,
}
use superion.Events.Post.{execute, dispatch}
use superion.Events.Post.Idempotent.{execute_again}
use superion.Events.Post.Steps.{serve, serve-After}
use superion.Sessions.Repository.{save, get_order_for_technician}
use superion.Sessions.Pause
use superion.Sessions.Start
use superion.Sessions.Transition.{mark_step_complete, skip_step, requires_photo, cannot_skip}
use superion.Sessions.Transition.Context.{Loaded}
use superion.Sessions.Transition.Complete.{mark_step_complete_lem, Completed}
use superion.Sessions.Transition.Skip.{skip_step_lem, Skipped}
use superion.Sessions.History.{IsWellFormed, After}
use superion.Sessions.Exclusive.{IsSound}
use superion.Sessions.Reachable.{Run, Step, Run-IsSound}
use superion.World.{uuid4, now}
use superion.World.Bus.{socket_bus}
use superion.Tests.Fixtures.{
  technician, session, order, template, plant, print, pausing, completing,
}

only_session :
    (k : String) (s : Session) → get plant.sessions k ≡ some s → (k ≡ "s1") × (s ≡ session)
unfolding get
only_session k s h = ground (arith, eq_iff "s1" k)

plant-IsWellFormed : IsWellFormed plant
plant-IsWellFormed = record {
  log = empty-IsLog;
  keyed = λ k s h. ap (λ (x : Session). x.id) (only_session k s h).1 ∙ sym (only_session k s h).0;
}

plant-IsSound : IsSound plant
plant-IsSound = record {
  well_formed = plant-IsWellFormed;
  exclusive = record {
    alone = λ j k s t p q _ _ _. (only_session j s p).0 ∙ sym (only_session k t q).0;
  };
}

plant-Loaded : Loaded "s1" technician session template plant
unfolding get get_order_for_technician
plant-Loaded = record {
  stored = refl;
  owner = refl;
  unfinished = refl;
  order = order;
  assigned = refl;
  planned = refl;
}

execute_again_example :
    let v = (execute socket_bus print "s1" pausing technician plant).1 in
    execute socket_bus print "s1" pausing technician v ≡ (ok 1, v)
unfolding execute dispatch get Pause.pause require_session get_by_id_for_technician Session.pause
    save put emit_system_event next_seq id_or_uuid uuid4 now store_event make_event append_event
    append record_event events_of get_by_event_id counter_of ◌>>=◌
execute_again_example =
    execute_again socket_bus print "s1" pausing technician plant 1
      (λ e. ground (arith, eq_iff "e1" "")) (λ k e. ground (arith, eq_iff "u0" "e1")) refl

serve-After_example : After plant (
    serve socket_bus print
      (("s1", pausing, technician) ∷ ("s1", completing, technician) ∷ [])
      plant)
serve-After_example =
    serve-After socket_bus print (("s1", pausing, technician) ∷ ("s1", completing, technician) ∷ [])
      plant plant-IsWellFormed

Run-IsSound_example :
    IsSound
      (execute socket_bus print "s1" pausing technician (Start.execute "o1" technician plant).1).1
Run-IsSound_example =
    Run-IsSound socket_bus print plant
      (execute socket_bus print "s1" pausing technician (Start.execute "o1" technician plant).1).1
      (Run.step (Step.started "o1" technician)
        (Run.step (Step.posted "s1" pausing technician) Run.stay))
      plant-IsSound

mark_step_complete_lem_example :
    let (r, v) = mark_step_complete socket_bus "s1" 1 technician "command" none plant in
    (true ≡ true
      → has_accepted_photo plant.event_store "s1" 1 ≡ false
      → (r ≡ err requires_photo) × (v ≡ plant))
    × ((true ≡ true → has_accepted_photo plant.event_store "s1" 1 ≡ true)
        → (n : ℕ) × (r ≡ ok n) × Completed "s1" session template 1 "command" plant n v)
mark_step_complete_lem_example =
    mark_step_complete_lem socket_bus (λ m w. refl) plant "s1" technician session template
      plant-Loaded refl 1 "command" none

skip_step_lem_example :
    let (r, v) = skip_step socket_bus "s1" 0 "worn" technician none plant in
    (true ≡ true → (r ≡ err cannot_skip) × (v ≡ plant))
    × (true ≡ false → (n : ℕ) × (r ≡ ok n) × Skipped "s1" session template 0 "worn" plant n v)
skip_step_lem_example =
    skip_step_lem socket_bus (λ m w. refl) plant "s1" technician session template plant-Loaded refl
      0 "worn" none
