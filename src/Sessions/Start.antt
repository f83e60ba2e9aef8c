-- ===== src/Sessions/Start.antt =====
-- backend/src/application/use_cases/work_orders/start_session.py. The output holds the started
-- datetime and the template themselves, where the API prints them.
use superion.Prelude.{ℕ, String, none, some, [], ◌∷◌, string_eq, ◌==◌, not, if◌then◌else◌}
use superion.Effect.{
  forbidden, Error, domain_error, Exec, pure, lift, gets, or_raise, raise_if, ◌>>=◌, ◌>>◌,
}
use superion.Value.{Value}
use superion.Domain.User.{User}
use superion.Domain.Session.{Session, SessionStatus}
use superion.Domain.WorkOrder.{
  WorkOrder, start, is_completed, is_in_progress, is_pending, already_completed, already_started,
}
use superion.Domain.Template.{Template}
use superion.World.{World, uuid4, now}
use superion.Audit.{AuditAction}
use superion.Audit.Log.{audited}
use superion.Sessions.Repository.{
  save, save_order, get_active_for_work_order, get_order_for_technician, get_template,
}
use superion.Sessions.Transition.{work_order_not_found}

pub record StartSessionOutput : Type 0 where
  pub session_id : String
  pub work_order_id : String
  pub procedure_template : Template
  pub langgraph_thread_id : String
  pub started_at : ℕ

abbrev pub other_technician : Error
other_technician = domain_error forbidden "FORBIDDEN"

-- `_resume_existing`
unfoldable pub resume_existing : WorkOrder → Session → Exec World StartSessionOutput
resume_existing order session = do
  found ← gets (λ w. get_template w order.procedure_template_id)
  template ← or_raise found work_order_not_found
  if is_pending order.status then (do started ← lift (start order); save_order started) else pure tt
  pure (record {
    session_id = session.id;
    work_order_id = order.id;
    procedure_template = template;
    langgraph_thread_id = session.langgraph_thread_id;
    started_at = session.started_at;
  })

-- The rest of `execute`, for an order with no active session
unfoldable pub start_new : String → WorkOrder → User → Exec World StartSessionOutput
start_new work_order_id order current_user = do
  raise_if (is_in_progress order.status) already_started
  found ← gets (λ w. get_template w order.procedure_template_id)
  template ← or_raise found work_order_not_found
  started_at ← now
  session_id ← uuid4
  thread_id ← uuid4
  updated_order ← lift (start order)
  save (record {
    id = session_id;
    work_order_id = work_order_id;
    technician_id = current_user.id;
    status = SessionStatus.active;
    started_at = started_at;
    current_step_index = 0;
    langgraph_thread_id = thread_id;
    ended_at = none;
  })
  save_order updated_order
  pure (record {
    session_id = session_id;
    work_order_id = work_order_id;
    procedure_template = template;
    langgraph_thread_id = thread_id;
    started_at = started_at;
  })

-- The body of `execute`, without its decorator
unfoldable pub start_or_resume : String → User → Exec World StartSessionOutput
start_or_resume work_order_id current_user = do
  found ← gets (λ w. get_order_for_technician w work_order_id current_user.id)
  order ← or_raise found work_order_not_found
  raise_if (is_completed order.status) already_completed
  active ← gets (λ w. get_active_for_work_order w work_order_id)
  elim active [
    | none ↦ start_new work_order_id order current_user
    | some session ↦
        raise_if (not (session.technician_id == current_user.id)) other_technician
        >> resume_existing order session
  ]

-- `StartSessionUseCase.execute`
unfoldable pub execute : String → User → Exec World StartSessionOutput
execute work_order_id current_user =
    audited AuditAction.start_session "session" (λ _. current_user.id) (λ out. out.session_id)
      (λ _. ("work_order_id", Value.text work_order_id) ∷ [])
      (start_or_resume work_order_id current_user)
