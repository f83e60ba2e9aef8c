-- ===== src/Sessions/Opening.antt =====
-- `StartSession` opens at most one session for an order, and returns the open one to its owner.
use mathlib.Core.Path.{subst}
use superion.Events.Store.Invariant.{IsLog}
use superion.Prelude.{String, ◌≡◌, ◌∙◌, sym, ap, refl, none, some, string_eq, ◌==◌, not, arith}
use superion.Effect.{Exec, pure, ◌>>=◌, ◌>>◌}
use superion.Effect.Rules.{
  Outcome, Outcome-of_state, Ensures, Ensures-bind, Ensures-pure, Ensures-lift, Ensures-gets,
  Ensures-or_raise, Ensures-if, Ensures-raise_if, Ensures-strengthen,
}
use superion.Dict.{get}
use superion.Value.{Payload}
use superion.Domain.User.{User}
use superion.Domain.Session.{Session}
use superion.Domain.WorkOrder.{
  WorkOrder, start, is_pending, is_completed, is_in_progress, already_completed, already_started,
}
use superion.World.{World, uuid4, now}
use superion.Audit.{AuditAction, make_entry}
use superion.Audit.Log.{log_entry, audited}
use superion.Sessions.Repository.{save, save_order, get_active_for_work_order}
use superion.Sessions.Transition.{work_order_not_found}
use superion.Sessions.Exclusive.{IsSound, save-IsSound}
use superion.Sessions.Start.{start_new, resume_existing, start_or_resume, execute, other_technician}

-- The action keeps the sessions exclusive.
abbrev KeepsSound : {A : Type 0} → Exec World A → Type 0
KeepsSound m = Ensures IsSound m (λ _. IsSound) IsSound

-- No open session for the order, in a world with exclusive sessions
abbrev IsFree : String → World → Type 0
IsFree order_id w = IsSound w × (get_active_for_work_order w order_id ≡ none)

same_sessions :
    {w v : World} → v.sessions ≡ w.sessions → v.event_store ≡ w.event_store → IsSound w → IsSound v
same_sessions e f h = record {
  well_formed = record {
    log = subst IsLog (sym f) h.well_formed.log;
    keyed = λ k s p. h.well_formed.keyed k s (ap (λ d. get d k) (sym e) ∙ p);
  };
  exclusive = record {
    alone = λ j k s t p q.
        h.exclusive.alone j k s t (ap (λ d. get d j) (sym e) ∙ p) (ap (λ d. get d k) (sym e) ∙ q);
  };
}

now-IsFree : (order_id : String) → Ensures (IsFree order_id) now (λ _. IsFree order_id) IsSound
unfolding now get_active_for_work_order
now-IsFree order_id = record { at = λ w p. (same_sessions refl refl p.0, p.1) }

uuid4-IsFree : (order_id : String) → Ensures (IsFree order_id) uuid4 (λ _. IsFree order_id) IsSound
unfolding uuid4 get_active_for_work_order
uuid4-IsFree order_id = record { at = λ w p. (same_sessions refl refl p.0, p.1) }

save_here :
    (w : World) (s : Session)
    → IsFree s.work_order_id w
    → Outcome (λ _. IsSound) IsSound (save s w).0 (save s w).1
save_here w s p = unfold save in save-IsSound w s p.0 p.1

save_order-pure : {A : Type 0} (o : WorkOrder) (a : A) → KeepsSound (save_order o >> pure a)
unfolding save_order
save_order-pure o a =
    Ensures-bind (λ _. IsSound) _ _ (record { at = λ w p. same_sessions refl refl p })
      (λ _. Ensures-pure a (λ w p. p))

start_new-IsSound :
    (order_id : String) (order : WorkOrder) (user : User)
    → Ensures (IsFree order_id) (start_new order_id order user) (λ _. IsSound) IsSound
unfolding start_new
start_new-IsSound order_id order user =
    Ensures-bind (λ _. IsFree order_id) _ _
      (Ensures-raise_if (is_in_progress order.status) already_started (λ w e p. p) (λ w p. p.0))
      λ _.
        Ensures-bind (λ _. IsFree order_id) _ _ (Ensures-gets _ (λ w p. p))
          λ found.
            Ensures-bind (λ _. IsFree order_id) _ _
              (Ensures-or_raise found work_order_not_found (λ w a e p. p) (λ w p. p.0))
              λ template.
                Ensures-bind (λ _. IsFree order_id) _ _ (now-IsFree order_id)
                  λ started_at.
                    Ensures-bind (λ _. IsFree order_id) _ _ (uuid4-IsFree order_id)
                      λ session_id.
                        Ensures-bind (λ _. IsFree order_id) _ _ (uuid4-IsFree order_id)
                          λ thread_id.
                            Ensures-bind (λ _. IsFree order_id) _ _
                              (Ensures-lift (start order) (λ w o e p. p) (λ w p. p.0))
                              λ updated.
                                Ensures-bind (λ _. IsSound) _ _
                                  (record { at = λ w p. save_here w _ p })
                                  λ _. save_order-pure updated _

resume_existing-IsSound : (o : WorkOrder) (s : Session) → KeepsSound (resume_existing o s)
unfolding resume_existing save_order
resume_existing-IsSound o s =
    Ensures-bind (λ _. IsSound) _ _ (Ensures-gets _ (λ w p. p))
      λ found.
        Ensures-bind (λ _. IsSound) _ _
          (Ensures-or_raise found work_order_not_found (λ w a e p. p) (λ w p. p))
          λ template.
            Ensures-bind (λ _. IsSound) _ _
              (Ensures-if (is_pending o.status) _ _
                (λ _.
                  Ensures-bind (λ _. IsSound) _ _ (Ensures-lift (start o) (λ w a e p. p) (λ w p. p))
                    λ started. record { at = λ w p. same_sessions refl refl p })
                (λ _. Ensures-pure tt (λ w p. p)))
              λ _. Ensures-pure _ (λ w p. p)

start_or_resume-IsSound :
    (order_id : String) (user : User) → KeepsSound (start_or_resume order_id user)
unfolding start_or_resume
start_or_resume-IsSound order_id user =
    Ensures-bind (λ _. IsSound) _ _ (Ensures-gets _ (λ w p. p))
      λ found.
        Ensures-bind (λ _. IsSound) _ _
          (Ensures-or_raise found work_order_not_found (λ w a e p. p) (λ w p. p))
          λ order.
            Ensures-bind (λ _. IsSound) _ _
              (Ensures-raise_if (is_completed order.status) already_completed (λ w e p. p)
                (λ w p. p))
              λ _.
                Ensures-bind
                  (λ active w. IsSound w × (active ≡ get_active_for_work_order w order_id)) _ _
                  (Ensures-gets _ (λ w p. (p, refl)))
                  (elim [
                    | none ↦
                        Ensures-strengthen (λ w p. (p.0, sym p.1))
                          (start_new-IsSound order_id order user)
                    | some s ↦
                        Ensures-strengthen (λ w p. p.0)
                          (Ensures-bind (λ _. IsSound) _ _
                            (Ensures-raise_if (not (s.technician_id == user.id)) other_technician
                              (λ w e p. p) (λ w p. p))
                            λ _. resume_existing-IsSound order s)
                  ])

-- Only the audit log changes.
log_entry-sessions :
    (actor : String) (action : AuditAction) (target_type target_id : String) (payload : Payload)
    (w : World)
    → let v = (log_entry actor action target_type target_id payload w).1 in
      (v.sessions ≡ w.sessions) × (v.event_store ≡ w.event_store)
unfolding log_entry uuid4 now make_entry ◌>>=◌
log_entry-sessions actor action target_type target_id payload w = (ground arith, ground arith)

log_entry-IsSound :
    (actor : String) (action : AuditAction) (target_type target_id : String) (payload : Payload)
    → KeepsSound (log_entry actor action target_type target_id payload)
log_entry-IsSound actor action target_type target_id payload = record {
  at = λ w p.
      let (e, f) = log_entry-sessions actor action target_type target_id payload w in
      Outcome-of_state IsSound (log_entry actor action target_type target_id payload w).0 _
        (same_sessions e f p);
}

pub execute-IsSound : (order_id : String) (user : User) → KeepsSound (execute order_id user)
unfolding execute audited
execute-IsSound order_id user =
    Ensures-bind (λ _. IsSound) _ _ (start_or_resume-IsSound order_id user)
      λ out.
        Ensures-bind (λ _. IsSound) _ _
          (log_entry-IsSound user.id AuditAction.start_session "session" out.session_id _)
          λ _. Ensures-pure out (λ w p. p)
