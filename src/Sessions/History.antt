-- ===== src/Sessions/History.antt =====
-- What any use case may do to the sessions and their logs: events are appended, never changed, and
-- a finalized session stays as it is.
use mathlib.Core.Path.{subst}
use mathlib.Core.List.{append-nil, append_assoc}
use text.Mathlib.TextEquality.{eq_iff}
use superion.Prelude.{
  String, ◌≡◌, sym, ◌∙◌, ap, refl, true, some, inl, inr, List, [], ◌∷◌, ◌++◌, string_eq, ◌==◌,
  arith, Bool-cases, if◌then◌else◌,
}
use superion.Dict.{get, get-put}
use superion.Domain.Session.{Session, is_finalized, is_active}
use superion.Domain.Event.{Event}
use superion.Events.Store.{events_of}
use superion.Events.Store.Invariant.{IsLog}
use superion.Events.Append.Effects.{Emitted, Emitted-IsLog, Emitted-events_of}
use superion.Sessions.Repository.{save}
use superion.World.{World}

-- The logs are numbered without a gap, and each session is stored under its id.
pub record IsWellFormed (w : World) : Type 0 where
  pub log : IsLog w.event_store
  pub keyed : (sid : String) (s : Session) → get w.sessions sid ≡ some s → s.id ≡ sid

-- `t` is the session `s` at a later time.
pub record Later (s t : Session) : Type 0 where
  pub id : t.id ≡ s.id
  pub work_order_id : t.work_order_id ≡ s.work_order_id
  pub technician_id : t.technician_id ≡ s.technician_id
  pub started_at : t.started_at ≡ s.started_at
  pub frozen : is_finalized s.status ≡ true → t ≡ s
  pub active_before : is_active t ≡ true → is_active s ≡ true

pub Later-refl : (s : Session) → Later s s
Later-refl s = record {
  id = refl;
  work_order_id = refl;
  technician_id = refl;
  started_at = refl;
  frozen = λ _. refl;
  active_before = λ a. a;
}

pub Later-trans : {s t u : Session} → Later s t → Later t u → Later s u
Later-trans {s} {t} {u} h k = record {
  id = k.id ∙ h.id;
  work_order_id = k.work_order_id ∙ h.work_order_id;
  technician_id = k.technician_id ∙ h.technician_id;
  started_at = k.started_at ∙ h.started_at;
  frozen =
      λ f. k.frozen (ap (λ (x : Session). is_finalized x.status) (h.frozen f) ∙ f) ∙ h.frozen f;
  active_before = λ a. h.active_before (k.active_before a);
}

-- `v` is a well-formed world later than `w`.
pub record After (w v : World) : Type 0 where
  pub well_formed : IsWellFormed v
  pub extends :
      (sid : String)
      → (more : List Event) × (events_of v.event_store sid ≡ events_of w.event_store sid ++ more)
  pub evolves :
      (sid : String) (s : Session)
      → get w.sessions sid ≡ some s
      → (t : Session) × (get v.sessions sid ≡ some t) × Later s t
  pub origin :
      (sid : String) (t : Session)
      → get v.sessions sid ≡ some t
      → (s : Session) × (get w.sessions sid ≡ some s) × Later s t
  pub work_orders : v.work_orders ≡ w.work_orders
  pub templates : v.templates ≡ w.templates
  pub uuid : v.uuid ≡ w.uuid

pub After-refl : (w : World) → IsWellFormed w → After w w
After-refl w h = record {
  well_formed = h;
  extends = λ sid. ([], sym (append-nil (events_of w.event_store sid)));
  evolves = λ sid s e. (s, e, Later-refl s);
  origin = λ sid s e. (s, e, Later-refl s);
  work_orders = refl;
  templates = refl;
  uuid = refl;
}

pub After-trans : {u v w : World} → After u v → After v w → After u w
After-trans {u} {v} {w} h k = record {
  well_formed = k.well_formed;
  extends = λ sid.
      let (more, p) = h.extends sid in
      let (further, q) = k.extends sid in
      (
        more ++ further,
        q ∙ ap (λ xs. xs ++ further) p ∙ append_assoc (events_of u.event_store sid) more further,
      );
  evolves = λ sid s e.
      let (t, p, l) = h.evolves sid s e in
      let (r, q, m) = k.evolves sid t p in (r, q, Later-trans l m);
  origin = λ sid r e.
      let (t, p, m) = k.origin sid r e in
      let (s, q, l) = h.origin sid t p in (s, q, Later-trans l m);
  work_orders = k.work_orders ∙ h.work_orders;
  templates = k.templates ∙ h.templates;
  uuid = k.uuid ∙ h.uuid;
}

extends-Emitted :
    {w v : World} {e : Event} (sid : String)
    → Emitted w v e
    → (more : List Event) × (events_of v.event_store sid ≡ events_of w.event_store sid ++ more)
extends-Emitted {w} {v} {e} sid m = elim (Bool-cases (e.session_id == sid)) [
  | inl same ↦ (
    e ∷ [],
    Emitted-events_of sid m
        ∙ ap
            (λ b.
              if b
              then events_of w.event_store e.session_id ++ e ∷ []
              else events_of w.event_store sid)
            same
        ∙ ap (λ t. events_of w.event_store t ++ e ∷ []) ((eq_iff e.session_id sid).0 same),
  )
  | inr other ↦ (
    [],
    Emitted-events_of sid m
        ∙ ap
            (λ b.
              if b
              then events_of w.event_store e.session_id ++ e ∷ []
              else events_of w.event_store sid)
            other
        ∙ sym (append-nil (events_of w.event_store sid)),
  )
]

pub Emitted-After : {w v : World} {e : Event} → IsWellFormed w → Emitted w v e → After w v
Emitted-After {w} {v} {e} h m = record {
  well_formed = record {
    log = Emitted-IsLog m h.log;
    keyed = λ sid s p. h.keyed sid s (ap (λ d. get d sid) (sym m.others.sessions) ∙ p);
  };
  extends = λ sid. extends-Emitted sid m;
  evolves = λ sid s p. (s, ap (λ d. get d sid) m.others.sessions ∙ p, Later-refl s);
  origin = λ sid s p. (s, ap (λ d. get d sid) (sym m.others.sessions) ∙ p, Later-refl s);
  work_orders = m.others.work_orders;
  templates = m.others.templates;
  uuid = m.others.uuid;
}

-- Saving a session that follows from the stored one
module _ (w : World) (sid : String) (s t : Session) (h : IsWellFormed w)
    (stored : get w.sessions sid ≡ some s) (later : Later s t) where
  stored_at : t.id ≡ sid
  stored_at = later.id ∙ h.keyed sid s stored

  keyed-save : (k : String) (x : Session) → get (save t w).1.sessions k ≡ some x → x.id ≡ k
  unfolding save
  keyed-save k x e = elim (Bool-cases (t.id == k)) [
    | inl same ↦ cc ((eq_iff t.id k).0 same, get_put_same same)
    | inr other ↦ h.keyed k x (ground (arith, get-put w.sessions t.id k t))
  ]
    where
      get_put_same : (t.id == k) ≡ true → t ≡ x
      get_put_same same = ground (arith, get-put w.sessions t.id k t)

  evolves-save :
      (k : String) (x : Session)
      → get w.sessions k ≡ some x
      → (y : Session) × (get (save t w).1.sessions k ≡ some y) × Later x y
  unfolding save
  evolves-save k x e = elim (Bool-cases (t.id == k)) [
    | inl same ↦ (
      t,
      ground (arith, get-put w.sessions t.id k t),
      subst (λ (z : Session). Later z t) (found ((eq_iff t.id k).0 same)) later,
    )
    | inr other ↦ (x, ground (arith, get-put w.sessions t.id k t), Later-refl x)
  ]
    where
      found : t.id ≡ k → s ≡ x
      found same = ground (arith, sym stored ∙ ap (get w.sessions) (sym stored_at ∙ same) ∙ e)

  origin-save :
      (k : String) (y : Session)
      → get (save t w).1.sessions k ≡ some y
      → (x : Session) × (get w.sessions k ≡ some x) × Later x y
  unfolding save
  origin-save k y e = elim (Bool-cases (t.id == k)) [
    | inl same ↦ (
      s,
      ap (get w.sessions) (sym ((eq_iff t.id k).0 same) ∙ stored_at) ∙ stored,
      subst (λ (z : Session). Later s z) (put_here same) later,
    )
    | inr other ↦ (y, ground (arith, get-put w.sessions t.id k t), Later-refl y)
  ]
    where
      put_here : (t.id == k) ≡ true → t ≡ y
      put_here same = ground (arith, get-put w.sessions t.id k t)

  pub save-After : After w (save t w).1
  unfolding save
  save-After = record {
    well_formed = record { log = h.log; keyed = keyed-save };
    extends = λ sid. ([], sym (append-nil (events_of w.event_store sid)));
    evolves = evolves-save;
    origin = origin-save;
    work_orders = refl;
    templates = refl;
    uuid = refl;
  }
