-- ===== src/Sessions/Exclusive.antt =====
-- At most one open session for a work order.
use text.Mathlib.TextEquality.{eq_iff}
use superion.Prelude.{
  String, ◌≡◌, ◌∙◌, sym, ap, true, false, none, some, inl, inr, [], ◌∷◌, string_eq, ◌==◌, arith,
  Bool-cases,
}
use superion.Dict.{Dict, get, put, values, get-put}
use superion.Domain.Session.{Session, is_active}
use superion.World.{World}
use superion.Sessions.Repository.{get_active_for_work_order, find_active, save}
use superion.Sessions.History.{IsWellFormed, After}

-- Two open sessions for one order are stored under the same id.
pub record IsExclusive (w : World) : Type 0 where
  pub alone :
      (j k : String) (s t : Session)
      → get w.sessions j ≡ some s
      → get w.sessions k ≡ some t
      → is_active s ≡ true
      → is_active t ≡ true
      → s.work_order_id ≡ t.work_order_id
      → j ≡ k

pub After-IsExclusive : {w v : World} → After w v → IsExclusive w → IsExclusive v
After-IsExclusive a h = record {
  alone = λ j k s t p q x y e.
      let (s', p', l) = a.origin j s p in
      let (t', q', m) = a.origin k t q in
      h.alone j k s' t' p' q' (l.active_before x) (m.active_before y)
        (sym l.work_order_id ∙ e ∙ m.work_order_id);
}

-- If the look-up finds no open session for the order, no stored session is one.
find_active-none :
    (order_id : String) (d : Dict String Session) (k : String) (s : Session)
    → find_active order_id (values d) ≡ none
    → get d k ≡ some s
    → is_active s ≡ true
    → s.work_order_id ≡ order_id
    → ⊥
unfolding find_active get
find_active-none order_id [] k s h e a p = cc
find_active-none order_id ((j, t) ∷ d) k s h e a p =
    ground (arith, find_active-none order_id d k s, eq_iff t.work_order_id order_id)

-- Saving an open session for an order that has none keeps the sessions exclusive.
pub save-IsExclusive :
    (w : World) (s : Session)
    → IsExclusive w
    → get_active_for_work_order w s.work_order_id ≡ none
    → IsExclusive (save s w).1
unfolding save get_active_for_work_order
save-IsExclusive w s h free = record {
  alone = λ j k x y p q a b e. elim (Bool-cases (s.id == j)) [
    | inl sj ↦ elim (Bool-cases (s.id == k)) [
      | inl sk ↦ sym ((eq_iff s.id j).0 sj) ∙ (eq_iff s.id k).0 sk
      | inr nk ↦ absurd (
          find_active-none s.work_order_id w.sessions k y free (put_other k y nk q) b
            (sym e ∙ ap (λ (z : Session). z.work_order_id) (sym (put_same j x sj p))))
    ]
    | inr nj ↦ elim (Bool-cases (s.id == k)) [
      | inl sk ↦ absurd (
          find_active-none s.work_order_id w.sessions j x free (put_other j x nj p) a
            (e ∙ ap (λ (z : Session). z.work_order_id) (sym (put_same k y sk q))))
      | inr nk ↦ h.alone j k x y (put_other j x nj p) (put_other k y nk q) a b e
    ]
  ];
}
  where
    put_same :
        (j : String) (x : Session)
        → (s.id == j) ≡ true
        → get (put w.sessions s.id s) j ≡ some x
        → s ≡ x
    put_same j x same p = ground (arith, get-put w.sessions s.id j s)

    put_other :
        (j : String) (x : Session)
        → (s.id == j) ≡ false
        → get (put w.sessions s.id s) j ≡ some x
        → get w.sessions j ≡ some x
    put_other j x other p = ground (arith, get-put w.sessions s.id j s)

-- The logs are numbered, the sessions are under their ids and are exclusive.
pub record IsSound (w : World) : Type 0 where
  pub well_formed : IsWellFormed w
  pub exclusive : IsExclusive w

pub After-IsSound : {w v : World} → After w v → IsSound w → IsSound v
After-IsSound a h = record {
  well_formed = a.well_formed;
  exclusive = After-IsExclusive a h.exclusive;
}

save-keyed :
    (w : World) (s : Session)
    → ((sid : String) (t : Session) → get w.sessions sid ≡ some t → t.id ≡ sid)
    → (sid : String) (t : Session) → get (put w.sessions s.id s) sid ≡ some t
    → t.id ≡ sid
save-keyed w s h sid t p = elim (Bool-cases (s.id == sid)) [
  | inl same ↦ ground (arith, get-put w.sessions s.id sid s, eq_iff s.id sid)
  | inr other ↦ h sid t (ground (arith, get-put w.sessions s.id sid s))
]

-- So does saving an open session for an order that has none in a sound world.
pub save-IsSound :
    (w : World) (s : Session)
    → IsSound w
    → get_active_for_work_order w s.work_order_id ≡ none
    → IsSound (save s w).1
unfolding save
save-IsSound w s h free = record {
  well_formed = record { log = h.well_formed.log; keyed = save-keyed w s h.well_formed.keyed };
  exclusive = unfold save in save-IsExclusive w s h.exclusive free;
}
