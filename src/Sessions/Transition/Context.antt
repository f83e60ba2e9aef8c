-- ===== src/Sessions/Transition/Context.antt =====
-- What the opening of `mark_step_complete` and `skip_step` establishes.
use superion.Prelude.{String, ◌≡◌, sym, ◌∙◌, refl, some, true, false, Bool, ◌&&◌, not, ℕ, string_eq}
use superion.Effect.Rules.{
  Ensures, Ensures-bind, Ensures-gets, Ensures-or_raise, Ensures-raise_if, Ensures-pure,
}
use superion.Dict.{get}
use superion.Domain.User.{User}
use superion.Domain.Session.{Session, is_finalized, already_finalized}
use superion.Domain.WorkOrder.{WorkOrder}
use superion.Domain.Template.{Template, is_in}
use superion.Events.Store.{has_accepted_photo}
use superion.World.{World}
use superion.Events.Append.Rules.{Ensures-require_session}
use superion.Sessions.Repository.{get_order_for_technician, get_template}
use superion.Sessions.Transition.{
  load_session_context, work_order_not_found, photo_gate, requires_photo,
}

-- The caller's session is stored and open, its order is assigned to the caller, and the template is
-- that of the order.
pub record Loaded (sid : String) (user : User) (s : Session) (t : Template) (w : World)
    : Type 0 where
  pub stored : get w.sessions sid ≡ some s
  pub owner : s.technician_id ≡ user.id
  pub unfinished : is_finalized s.status ≡ false
  pub order : WorkOrder
  pub assigned : get_order_for_technician w s.work_order_id user.id ≡ some order
  pub planned : get_template w order.procedure_template_id ≡ some t

module _ (P : World → Type 0) (sid : String) (user : User) where
  abbrev Found : Session → World → Type 0
  Found s w = P w × (get w.sessions sid ≡ some s) × (s.technician_id ≡ user.id)

  abbrev Open : Session → World → Type 0
  Open s w = Found s w × (is_finalized s.status ≡ false)

  abbrev Ordered : Session → WorkOrder → World → Type 0
  Ordered s o w = Open s w × (get_order_for_technician w s.work_order_id user.id ≡ some o)

  pub Ensures-load_session_context :
      Ensures P (load_session_context sid user) (λ c w. P w × Loaded sid user c.0 c.1 w) P
  unfolding load_session_context
  Ensures-load_session_context = Ensures-bind Found _ _ (Ensures-require_session sid user) λ s.
      Ensures-bind (λ _. Open s) _ _
        (Ensures-raise_if (is_finalized s.status) already_finalized (λ w e p. (p, e)) (λ w p. p.0))
        λ _.
          Ensures-bind (λ o w. Open s w × (o ≡ get_order_for_technician w s.work_order_id user.id))
            _ _ (Ensures-gets _ (λ w p. (p, refl)))
            λ o.
              Ensures-bind (Ordered s) _ _
                (Ensures-or_raise o work_order_not_found (λ w a e p. (p.0, sym p.1 ∙ e))
                  (λ w p. p.0.0.0))
                λ order.
                  Ensures-bind
                    (λ t w. Ordered s order w × (t ≡ get_template w order.procedure_template_id)) _
                    _ (Ensures-gets _ (λ w p. (p, refl)))
                    λ t.
                      Ensures-bind (λ template w. P w × Loaded sid user s template w) _ _
                        (Ensures-or_raise t work_order_not_found
                          (λ w template e p. (
                            p.0.0.0.0,
                            record {
                              stored = p.0.0.0.1;
                              owner = p.0.0.0.2;
                              unfinished = p.0.0.1;
                              order = order;
                              assigned = p.0.1;
                              planned = sym p.1 ∙ e;
                            },
                          ))
                          (λ w p. p.0.0.0.0))
                        λ template. Ensures-pure (s, template) (λ w p. p)

-- Behind the gate, a step that requires a photo has an accepted one.
pub Ensures-photo_gate :
    (P : World → Type 0) (sid : String) (i : ℕ) (t : Template)
    → Ensures P
        (photo_gate sid i t)
        (λ _ w.
          P w
          × (is_in i t.photo_required_step_indices ≡ true
              → has_accepted_photo w.event_store sid i ≡ true))
        P
unfolding photo_gate
Ensures-photo_gate P sid i t =
    Ensures-bind
      (λ missing w.
        P w
        × (missing ≡ (
            is_in i t.photo_required_step_indices && not (has_accepted_photo w.event_store sid i))))
      _ _ (Ensures-gets _ (λ w p. (p, refl)))
      λ missing.
        Ensures-raise_if missing requires_photo
          (λ w e p. (
            p.0,
            gate (is_in i t.photo_required_step_indices) (has_accepted_photo w.event_store sid i)
                (sym p.1 ∙ e),
          ))
          (λ w p. p.0)
  where
    gate :
        (required photo : Bool) → (required && not photo) ≡ false → required ≡ true → photo ≡ true
    gate true true h r = refl
    gate true false h r = sym h
    gate false photo h r = cc
