-- ===== src/Reports/Live/Filed.antt =====
-- Reports that are filed under their sessions, and what saving one of them changes.
use text.Mathlib.TextEquality.{eq_iff}
use mathlib.Core.Path.{subst}
use superion.Prelude.{
  ℕ, ◌+◌, ◌≤◌, String, ◌≡◌, ◌≢◌, ◌⊎◌, ◌∙◌, sym, ap, refl, true, false, none, some, inl, inr, arith,
  string_eq, ◌==◌, if◌then◌else◌, Bool-cases, Option-cases,
}
use superion.Dict.{get, get-put}
use superion.Domain.Report.{Content, Report, with_content}
use superion.World.{World}
use superion.Reports.Live.{save_report, report_of, is_closed}
use superion.Reports.Live.Keeps.{with_report}

-- Each report is filed under its session, and identifiers do not come twice.
pub record IsFiled (w : World) : Type 0 where
  pub session : (sid : String) (r : Report) → report_of w sid ≡ some r → r.session_id ≡ sid
  pub id :
      (sid : String) (r : Report) → report_of w sid ≡ some r → get w.report_index sid ≡ some r.id
  pub fresh :
      (sid k : String) → get w.report_index sid ≡ some k → (n : ℕ) → w.drawn ≤ n → k ≢ w.uuid n
  pub distinct : (m n : ℕ) → w.uuid m ≡ w.uuid n → m ≡ n

-- `s` is the report `r` at a later time.
pub record Grown (r s : Report) : Type 0 where
  pub id : s.id ≡ r.id
  pub session_id : s.session_id ≡ r.session_id
  pub version : r.version ≤ s.version
  pub frozen : is_closed r.status ≡ true → s ≡ r

pub Grown-refl : (r : Report) → Grown r r
Grown-refl r = record { id = refl; session_id = refl; version = omega arith; frozen = λ _. refl }

pub Grown-trans : {r s t : Report} → Grown r s → Grown s t → Grown r t
Grown-trans {r} {s} {t} h k = record {
  id = k.id ∙ h.id;
  session_id = k.session_id ∙ h.session_id;
  version = omega (arith, h.version, k.version);
  frozen = λ c. k.frozen (ap (λ (x : Report). is_closed x.status) (h.frozen c) ∙ c) ∙ h.frozen c;
}

-- `v` is a world with filed reports, in which every report of `w` has grown or is as it was.
pub record ReportsAfter (w v : World) : Type 0 where
  pub filed : IsFiled v
  pub grown :
      (sid : String) (r : Report)
      → report_of w sid ≡ some r
      → (s : Report) × (report_of v sid ≡ some s) × Grown r s

pub ReportsAfter-refl : (w : World) → IsFiled w → ReportsAfter w w
ReportsAfter-refl w h = record { filed = h; grown = λ sid r e. (r, e, Grown-refl r) }

pub ReportsAfter-trans : {u v w : World} → ReportsAfter u v → ReportsAfter v w → ReportsAfter u w
ReportsAfter-trans h k = record {
  filed = k.filed;
  grown = λ sid r e.
      let (s, p, g) = h.grown sid r e in let (t, q, l) = k.grown sid s p in (t, q, Grown-trans g l);
}

-- Saving a report whose id no other session has
module _ (w : World) (r : Report)
    (alone : (u : String) → get w.report_index u ≡ some r.id → r.session_id ≡ u) where
  pub report_of-save :
      (u : String)
      → report_of (save_report r w).1 u ≡ (if r.session_id == u then some r else report_of w u)
  unfolding report_of save_report
  report_of-save u = elim (Bool-cases (r.session_id == u)) [
    | inl same ↦ ground (
      arith,
      get-put w.report_index r.session_id u r.id,
      get-put w.reports r.id r.id r,
      eq_iff r.id r.id,
    )
    | inr other ↦ elim (Option-cases (get w.report_index u)) [
      | inl none_there ↦ ground (arith, get-put w.report_index r.session_id u r.id, none_there)
      | inr (k, there) ↦ ground (
        arith,
        get-put w.report_index r.session_id u r.id,
        there,
        get-put w.reports r.id k r,
        eq_iff r.id k,
        eq_iff r.session_id u,
        alone u,
      )
    ]
  ]

  -- Which reports there are afterwards
  pub found_after :
      (u : String) (s : Report)
      → report_of (save_report r w).1 u ≡ some s
      → ((r.session_id ≡ u) × (s ≡ r)) ⊎ ((r.session_id ≢ u) × (report_of w u ≡ some s))
  found_after u s e = elim (Bool-cases (r.session_id == u)) [
    | inl same ↦ inl ((eq_iff r.session_id u).0 same, ground (arith, report_of-save u))
    | inr other ↦ inr (ground (arith, eq_iff r.session_id u), ground (arith, report_of-save u))
  ]

  pub index_after :
      (u k : String)
      → get (save_report r w).1.report_index u ≡ some k
      → (k ≡ r.id) ⊎ (get w.report_index u ≡ some k)
  unfolding save_report
  index_after u k e = elim (Bool-cases (r.session_id == u)) [
    | inl same ↦ inl (ground (arith, get-put w.report_index r.session_id u r.id))
    | inr other ↦ inr (ground (arith, get-put w.report_index r.session_id u r.id))
  ]

  pub id_after :
      IsFiled w
      → (u : String) (s : Report) → report_of (save_report r w).1 u ≡ some s
      → get (save_report r w).1.report_index u ≡ some s.id
  unfolding save_report
  id_after h u s e = elim (found_after u s e) [
    | inl (p, q) ↦
        ground (arith, p, q, get-put w.report_index r.session_id u r.id, eq_iff r.session_id u)
    | inr (p, q) ↦
        ground
          (arith, h.id u s q, p, get-put w.report_index r.session_id u r.id, eq_iff r.session_id u)
  ]

  -- The filing, if the id is no identifier still to come
  pub saved-IsFiled :
      IsFiled w → ((n : ℕ) → w.drawn ≤ n → r.id ≢ w.uuid n) → IsFiled (save_report r w).1
  unfolding save_report
  saved-IsFiled h old = record {
    session = λ u s e. elim (found_after u s e) [
      | inl (p, q) ↦ ap (λ (x : Report). x.session_id) q ∙ p
      | inr (p, q) ↦ h.session u s q
    ];
    id = id_after h;
    fresh = λ u k e n le. elim (index_after u k e) [
      | inl p ↦ λ q. old n le (sym p ∙ q)
      | inr p ↦ h.fresh u k p n le
    ];
    distinct = h.distinct;
  }

  -- The reports have grown, if the saved one has.
  pub saved-Grown :
      ((s : Report) → report_of w r.session_id ≡ some s → Grown s r)
      → (u : String) (s : Report) → report_of w u ≡ some s
      → (t : Report) × (report_of (save_report r w).1 u ≡ some t) × Grown s t
  saved-Grown g u s e = elim (Bool-cases (r.session_id == u)) [
    | inl same ↦ (
      r,
      ground (arith, report_of-save u, same),
      g s (ap (report_of w) ((eq_iff r.session_id u).0 same) ∙ e),
    )
    | inr other ↦ (s, ground (arith, report_of-save u, other), Grown-refl s)
  ]

module _ (w : World) (r : Report) (h : IsFiled w) where
  pub created-ReportsAfter :
      report_of w r.session_id ≡ none → r.id ≡ w.uuid w.drawn → ReportsAfter w (with_report w r)
  unfolding report_of save_report
  created-ReportsAfter e f =
      let u : World = record w { drawn = w.drawn + 1 } in
      let k : IsFiled u = record {
        session = h.session;
        id = h.id;
        fresh = λ sid k e n le. h.fresh sid k e n (omega arith);
        distinct = h.distinct;
      } in
      let alone : (v : String) → get u.report_index v ≡ some r.id → r.session_id ≡ v =
        λ v e. absurd (h.fresh v r.id e w.drawn (omega arith) f) in
      record {
        filed =
            saved-IsFiled u r alone k
              (λ n le q. absurd (omega (arith, h.distinct w.drawn n (sym f ∙ q), le)));
        grown = saved-Grown u r alone (λ s q. cc);
      }

  pub same_report :
      (sid v : String)
      → report_of w sid ≡ some r
      → get w.report_index v ≡ some r.id
      → report_of w v ≡ some r
  unfolding report_of
  same_report sid v e q = ground (arith, h.id sid r e)

  pub next-Grown :
      (c : Content) (at : ℕ) → is_closed r.status ≡ false → Grown r (with_content r c at)
  unfolding with_content
  next-Grown c at unclosed = record {
    id = refl;
    session_id = refl;
    version = omega arith;
    frozen = λ c. cc;
  }

  pub updated-ReportsAfter :
      (sid : String) (c : Content) (at : ℕ)
      → report_of w sid ≡ some r
      → is_closed r.status ≡ false
      → ReportsAfter w (save_report (with_content r c at) w).1
  unfolding with_content
  updated-ReportsAfter sid c at e unclosed =
      let s : Report = with_content r c at in
      let alone : (v : String) → get w.report_index v ≡ some r.id → r.session_id ≡ v =
        λ v q. h.session v r (same_report sid v e q) in
      let stored : report_of w r.session_id ≡ some r = ap (report_of w) (h.session sid r e) ∙ e in
      record {
        filed = saved-IsFiled w s alone h (h.fresh sid r.id (h.id sid r e));
        grown = saved-Grown w s alone (λ t q.
            let same : r ≡ t = ground (arith, stored, q) in
            subst (λ (x : Report). Grown x s) same (next-Grown c at unclosed));
      }
