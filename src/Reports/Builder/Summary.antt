-- ===== src/Reports/Builder/Summary.antt =====
-- What the loop of `build` collects, against a direct description of it.
use text.Mathlib.TextEquality.{eq_iff}
use mathlib.Core.Path.{subst}
use mathlib.Core.List.{append-nil, append_assoc}
use superion.Prelude.{
  ℕ, String, ◌≡◌, ◌∙◌, sym, ap, refl, Bool, true, false, ◌&&◌, ◌||◌, List, [], ◌∷◌, ◌++◌, map,
  arith, nat_eq, string_eq, ◌==◌, keep, any, nat_beq_iff, Bool-cases, inl, inr, if◌then◌else◌,
}
use superion.Effect.{Result, ok, err}
use superion.Dict.{get, contains, get-put}
use superion.Domain.Event.{Event}
use superion.Domain.Report.{StepStatus}
use superion.Reports.Builder.{
  Tally, no_tally, Python, add, text_or, int_or, finding_of, measurement_of, complete_at, skip_at,
  tally_event, tally, status_of,
}

ok_inj : {A : Type 0} (a b : A) → ok a ≡ ok b → a ≡ b
ok_inj a b h = cc

module _ (py : Python) where
  abbrev pub is_finding : Event → Bool
  is_finding e = e.type == "finding"

  abbrev pub is_measurement : Event → Bool
  is_measurement e = e.type == "measurement"

  abbrev is_index : ℕ → Result ℕ → Bool
  is_index i (ok j) = j == i
  is_index i (err e) = false

  -- The event has the type, and its payload names step `i`.
  abbrev pub marks : String → ℕ → Event → Bool
  marks type i e = e.type == type && is_index i (int_or py e.step_index (get e.payload "index"))

  -- The status of step `i` after the events
  abbrev pub status_after : List Event → ℕ → StepStatus
  status_after es i =
      if any (marks "step.completed" i) es
      then StepStatus.done
      else if any (marks "step.skipped" i) es
      then StepStatus.skipped
      else StepStatus.pending

  any-add :
      (i j : ℕ) (xs : List ℕ) → any (λ y. y == i) (add j xs) ≡ (any (λ y. y == i) xs || (j == i))
  any-add i j xs = elim (Bool-cases (j == i)) [
    | inl same ↦ elim (Bool-cases (any (λ y. y == j) xs)) [
      | inl old ↦
          let there = subst (λ k. any (λ y. y == k) xs ≡ true) ((nat_beq_iff j i).0 same) old in
          rw old (ground (arith, there, same))
      | inr new ↦ ground (arith, same, new)
    ]
    | inr other ↦ ground (arith, other)
  ]

  event_findings :
      (t u : Tally) (e : Event)
      → tally_event py t e ≡ ok u
      → u.findings ≡ t.findings ++ (if is_finding e then finding_of py e ∷ [] else [])
  unfolding tally_event
  event_findings t u e h = ground (
    arith,
    append-nil t.findings,
    eq_iff e.type "finding",
    eq_iff e.type "step.completed",
    eq_iff e.type "step.skipped",
    eq_iff "step.completed" "finding",
    eq_iff "step.skipped" "finding",
  )

  event_measurements :
      (t u : Tally) (e : Event)
      → tally_event py t e ≡ ok u
      → u.measurements
        ≡ t.measurements ++ (if is_measurement e then measurement_of py e ∷ [] else [])
  unfolding tally_event
  event_measurements t u e h = ground (
    arith,
    append-nil t.measurements,
    eq_iff e.type "measurement",
    eq_iff e.type "step.completed",
    eq_iff e.type "step.skipped",
    eq_iff e.type "finding",
    eq_iff "step.completed" "measurement",
    eq_iff "step.skipped" "measurement",
    eq_iff "finding" "measurement",
  )

  complete_index :
      (t u : Tally) (i : ℕ) (r : Result ℕ)
      → complete_at py t r ≡ ok u
      → any (λ y. y == i) u.completed_steps ≡ (any (λ y. y == i) t.completed_steps || is_index i r)
  complete_index t u i (ok j) h =
      ap (λ (x : Tally). any (λ y. y == i) x.completed_steps) (sym (ok_inj _ _ h))
      ∙ any-add i j t.completed_steps
  complete_index t u i (err e) h = cc

  skip_index :
      (t u : Tally) (i : ℕ) (reason : String) (r : Result ℕ)
      → skip_at py t reason r ≡ ok u
      → contains u.skipped_steps i ≡ (contains t.skipped_steps i || is_index i r)
  skip_index t u i reason (ok j) h =
      ap (λ (x : Tally). contains x.skipped_steps i) (sym (ok_inj _ _ h))
      ∙ ground (arith, get-put t.skipped_steps j i reason)
  skip_index t u i reason (err e) h = cc

  skip_completed :
      (t u : Tally) (reason : String) (r : Result ℕ)
      → skip_at py t reason r ≡ ok u
      → u.completed_steps ≡ t.completed_steps
  skip_completed t u reason (ok j) h = ap (λ (x : Tally). x.completed_steps) (sym (ok_inj _ _ h))
  skip_completed t u reason (err e) h = cc

  complete_skipped :
      (t u : Tally) (r : Result ℕ) → complete_at py t r ≡ ok u → u.skipped_steps ≡ t.skipped_steps
  complete_skipped t u (ok j) h = ap (λ (x : Tally). x.skipped_steps) (sym (ok_inj _ _ h))
  complete_skipped t u (err e) h = cc

  event_completed :
      (t u : Tally) (e : Event) (i : ℕ)
      → tally_event py t e ≡ ok u
      → any (λ y. y == i) u.completed_steps
        ≡ (any (λ y. y == i) t.completed_steps || marks "step.completed" i e)
  unfolding tally_event
  event_completed t u e i h =
      let r = int_or py e.step_index (get e.payload "index") in
      ground (
        arith,
        complete_index t u i r,
        skip_completed t u (text_or py "" (get e.payload "reason")) r,
      )

  event_skipped :
      (t u : Tally) (e : Event) (i : ℕ)
      → tally_event py t e ≡ ok u
      → contains u.skipped_steps i ≡ (contains t.skipped_steps i || marks "step.skipped" i e)
  unfolding tally_event
  event_skipped t u e i h =
      let r = int_or py e.step_index (get e.payload "index") in
      ground (
        arith,
        skip_index t u i (text_or py "" (get e.payload "reason")) r,
        complete_skipped t u r,
        eq_iff e.type "step.completed",
        eq_iff e.type "step.skipped",
        eq_iff "step.completed" "step.skipped",
      )

  -- The first turn of a loop that ends well
  tally_step :
      (t u : Tally) (e : Event) (es : List Event)
      → tally py t (e ∷ es) ≡ ok u
      → (v : Tally) × (tally_event py t e ≡ ok v) × (tally py v es ≡ ok u)
  unfolding tally
  tally_step t u e es h = go (tally_event py t e) refl h
    where
      go :
          (r : Result Tally)
          → tally_event py t e ≡ r
          → elim r [ ok v ↦ tally py v es | err x ↦ err x ] ≡ ok u
          → (v : Tally) × (tally_event py t e ≡ ok v) × (tally py v es ≡ ok u)
      go (ok v) p q = (v, p, q)
      go (err x) p q = cc

  tally_done : (t u : Tally) → tally py t [] ≡ ok u → t ≡ u
  unfolding tally
  tally_done t u h = ok_inj t u h

  pub tally-findings :
      (es : List Event) (t u : Tally)
      → tally py t es ≡ ok u
      → u.findings ≡ t.findings ++ map (finding_of py) (keep is_finding es)
  tally-findings [] t u h =
      ap (λ (x : Tally). x.findings) (sym (tally_done t u h)) ∙ sym (append-nil t.findings)
  tally-findings (e ∷ es) t u h =
      let (v, p, q) = tally_step t u e es h in
      tally-findings es v u q
      ∙ ap (λ xs. xs ++ map (finding_of py) (keep is_finding es)) (event_findings t v e p)
      ∙ append_assoc t.findings _ _
      ∙ ap (λ xs. t.findings ++ xs) (keep_first (is_finding e))
    where
      keep_first :
          (b : Bool)
          → (if b then finding_of py e ∷ [] else []) ++ map (finding_of py) (keep is_finding es)
            ≡ map
                (finding_of py)
                (elim b [ true ↦ e ∷ keep is_finding es | false ↦ keep is_finding es ])
      keep_first true = refl
      keep_first false = refl

  pub tally-measurements :
      (es : List Event) (t u : Tally)
      → tally py t es ≡ ok u
      → u.measurements ≡ t.measurements ++ map (measurement_of py) (keep is_measurement es)
  tally-measurements [] t u h =
      ap (λ (x : Tally). x.measurements) (sym (tally_done t u h)) ∙ sym (append-nil t.measurements)
  tally-measurements (e ∷ es) t u h =
      let (v, p, q) = tally_step t u e es h in
      tally-measurements es v u q
      ∙ ap (λ xs. xs ++ map (measurement_of py) (keep is_measurement es))
          (event_measurements t v e p)
      ∙ append_assoc t.measurements _ _
      ∙ ap (λ xs. t.measurements ++ xs) (keep_first (is_measurement e))
    where
      keep_first :
          (b : Bool)
          → (if b then measurement_of py e ∷ [] else [])
              ++ map (measurement_of py) (keep is_measurement es)
            ≡ map
                (measurement_of py)
                (elim b [ true ↦ e ∷ keep is_measurement es | false ↦ keep is_measurement es ])
      keep_first true = refl
      keep_first false = refl

  tally-completed :
      (es : List Event) (t u : Tally) (i : ℕ)
      → tally py t es ≡ ok u
      → any (λ y. y == i) u.completed_steps
        ≡ (any (λ y. y == i) t.completed_steps || any (marks "step.completed" i) es)
  tally-completed [] t u i h =
      ap (λ (x : Tally). any (λ y. y == i) x.completed_steps) (sym (tally_done t u h))
      ∙ ground arith
  tally-completed (e ∷ es) t u i h =
      let (v, p, q) = tally_step t u e es h in
      ground (arith, tally-completed es v u i q, event_completed t v e i p)

  tally-skipped :
      (es : List Event) (t u : Tally) (i : ℕ)
      → tally py t es ≡ ok u
      → contains u.skipped_steps i ≡ (contains t.skipped_steps i || any (marks "step.skipped" i) es)
  tally-skipped [] t u i h =
      ap (λ (x : Tally). contains x.skipped_steps i) (sym (tally_done t u h)) ∙ ground arith
  tally-skipped (e ∷ es) t u i h =
      let (v, p, q) = tally_step t u e es h in
      ground (arith, tally-skipped es v u i q, event_skipped t v e i p)

  -- The status that the tables of the loop give is that of the events.
  pub status_of-eq-after :
      (es : List Event) (u : Tally) (i : ℕ)
      → tally py no_tally es ≡ ok u
      → (status_of py u i).0 ≡ status_after es i
  unfolding status_of get
  status_of-eq-after es u i h =
      ground (arith, tally-completed es no_tally u i h, tally-skipped es no_tally u i h)
