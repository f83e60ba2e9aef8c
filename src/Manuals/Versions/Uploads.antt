-- ===== src/Manuals/Versions/Uploads.antt =====
-- An upload keeps the versions of a model's manuals apart.
use mathlib.Core.Path.{subst}
use text.Mathlib.TextEquality.{eq_iff}
use superion.Prelude.{
  ℕ, ◌+◌, ◌≤◌, String, ◌≡◌, ◌≢◌, ◌⊎◌, ◌∙◌, sym, ap, refl, Option, none, some, List, [], ◌∷◌, ◌++◌,
  arith, All, string_eq, ◌==◌, Bool-cases, Option-cases, inl, inr,
}
use superion.Effect.{Result, ok, Exec, lift, modify, ◌>>=◌}
use superion.Effect.Rules.{
  Outcome, Ensures, Ensures-bind, Ensures-lift, Ensures-gets, Ensures-strengthen, state_of_outcome,
  Outcome-of_state,
}
use superion.Dict.{get, put}
use superion.Domain.User.{User}
use superion.Domain.Manual.{Manual, make_manual}
use superion.Audit.Log.{audited}
use superion.World.{World, uuid4, now}
use superion.World.Stable.{Stable, Stable-bind, Stable-raise_if, Stable-pure}
use superion.Manuals.Repository.{save_manual}
use superion.Manuals.Lifecycle.{
  upload, upload_manual, validate_upload, replace_previous, store_manual, schedule,
}
use superion.Manuals.Versions.Kept.{Tag, Tagged, framed, tag, tag_of, tag-save, keyed-save}
use superion.Manuals.Versions.Tags.{archive_manual-Stable, schedule-Stable, log_entry-Stable}
use superion.Manuals.Versions.Fresh.{fresh_version}

-- The manuals in `running` are those that tasks have read and will store again.
pub record IsVersioned (running : List Manual) (w : World) : Type 0 where
  pub keyed : (k : String) (m : Manual) → get w.manuals k ≡ some m → m.id ≡ k
  pub distinct : (j k : String) (t : Tag) → tag w j ≡ some t → tag w k ≡ some t → j ≡ k
  pub fresh : (k : String) (t : Tag) → tag w k ≡ some t → (n : ℕ) → w.drawn ≤ n → k ≢ w.uuid n
  pub draws : (i j : ℕ) → w.uuid i ≡ w.uuid j → i ≡ j
  pub tracked : All (λ m. tag w m.id ≡ some (tag_of m)) running

pub Tagged-refl : {js : List Manual} (w : World) → IsVersioned js w → Tagged w w
Tagged-refl w h = record { keyed = h.keyed; tags = λ k. refl; uuid = refl; drawn = omega arith }

All-tags :
    (w v : World) (js : List Manual)
    → ((k : String) (t : Tag) → tag w k ≡ some t → tag v k ≡ some t)
    → All (λ m. tag w m.id ≡ some (tag_of m)) js
    → All (λ m. tag v m.id ≡ some (tag_of m)) js
All-tags w v [] h p = tt
All-tags w v (m ∷ js) h p = (h m.id (tag_of m) p.0, All-tags w v js h p.1)

pub All-middle :
    (P : Manual → Type 0) (xs : List Manual) (m : Manual) (ys : List Manual)
    → All P (xs ++ m ∷ ys)
    → P m × All P (xs ++ ys)
All-middle P [] m ys h = h
All-middle P (x ∷ xs) m ys h = let (p, rest) = All-middle P xs m ys h.1 in (p, (h.0, rest))

pub Tagged-IsVersioned :
    {js : List Manual} {w v : World} → Tagged w v → IsVersioned js w → IsVersioned js v
Tagged-IsVersioned {js} {w} {v} t h = record {
  keyed = t.keyed;
  distinct = λ j k x p q. h.distinct j k x (sym (t.tags j) ∙ p) (sym (t.tags k) ∙ q);
  fresh = λ k x p n le e.
      h.fresh k x (sym (t.tags k) ∙ p) n (omega (arith, t.drawn, le)) (e ∙ ap (λ f. f n) t.uuid);
  draws = λ i j e. h.draws i j (ap (λ f. f i) (sym t.uuid) ∙ e ∙ ap (λ f. f j) t.uuid);
  tracked = All-tags w v js (λ k x p. t.tags k ∙ p) h.tracked;
}

-- What keeps the tags keeps the versions.
pub Stable-tags :
    {A : Type 0} {js : List Manual} (m : Exec World A)
    → ((u : World) → Stable (Tagged u) m)
    → Stable (IsVersioned js) m
Stable-tags {A} {js} m h = record {
  at = λ w p. kept (m w).0 (m w).1 p ((h w).at w (Tagged-refl w p));
}
  where
    kept :
        {w : World} (r : Result A) (v : World)
        → IsVersioned js w
        → Outcome (λ _. Tagged w) (Tagged w) r v
        → Outcome (λ _. IsVersioned js) (IsVersioned js) r v
    kept {w} r v p o =
        Outcome-of_state (IsVersioned js) r v
          (Tagged-IsVersioned (state_of_outcome (Tagged w) r v o) p)

-- A new manual
module _ (js : List Manual) where
  -- The identifier is free, and will not be drawn again.
  abbrev New : String → World → Type 0
  New id v = IsVersioned js v × (tag v id ≡ none) × ((n : ℕ) → v.drawn ≤ n → id ≢ v.uuid n)

  uuid4-New : Ensures (IsVersioned js) uuid4 New (IsVersioned js)
  unfolding uuid4 tag
  uuid4-New = record {
    at = λ w h. (
      Tagged-IsVersioned (framed (Tagged-refl w h) refl refl (omega arith)) h,
      unused w h,
      λ n le e. absurd (omega (arith, h.draws w.drawn n e, le)),
    );
  }
    where
      unused : (w : World) → IsVersioned js w → tag w (w.uuid w.drawn) ≡ none
      unused w h = elim (Option-cases (tag w (w.uuid w.drawn))) [
        | inl p ↦ p
        | inr (t, p) ↦ absurd (h.fresh (w.uuid w.drawn) t p w.drawn (omega arith) refl)
      ]

  -- The tag is free as well.
  abbrev NewTag : String → Tag → World → Type 0
  NewTag id t v = New id v × ((k : String) → tag v k ≢ some t)

  found_after :
      (m : Manual) (v : World) (k : String) (t : Tag)
      → tag (save_manual m v).1 k ≡ some t
      → ((m.id ≡ k) × (tag_of m ≡ t)) ⊎ (tag v k ≡ some t)
  found_after m v k t p = elim (Bool-cases (m.id == k)) [
    | inl same ↦ inl ((eq_iff m.id k).0 same, ground (arith, tag-save m v k, same))
    | inr other ↦ inr (ground (arith, tag-save m v k, other))
  ]

  -- A stored manual is not under the free identifier.
  kept_after :
      (m : Manual) (v : World) (k : String) (t : Tag)
      → tag v m.id ≡ none
      → tag v k ≡ some t
      → tag (save_manual m v).1 k ≡ some t
  kept_after m v k t free p = elim (Bool-cases (m.id == k)) [
    | inl same ↦ absurd (none_some (sym free ∙ ap (tag v) ((eq_iff m.id k).0 same) ∙ p))
    | inr other ↦ ground (arith, tag-save m v k, other)
  ]
    where
      none_some : {x : Tag} → none ≡ some x → ⊥
      none_some e = cc

  save-New :
      (m : Manual)
      → Ensures (NewTag m.id (tag_of m)) (save_manual m) (λ _. IsVersioned js) (IsVersioned js)
  unfolding save_manual
  save-New m = record {
    at = λ v h. record {
      keyed = keyed-save m v h.0.0.keyed;
      distinct = λ j k t p q. elim (found_after m v j t p) [
        | inl (i, e) ↦ elim (found_after m v k t q) [
          | inl (i', e') ↦ sym i ∙ i'
          | inr q' ↦ absurd (h.1 k (q' ∙ ap some (sym e)))
        ]
        | inr p' ↦ elim (found_after m v k t q) [
          | inl (i', e') ↦ absurd (h.1 j (p' ∙ ap some (sym e')))
          | inr q' ↦ h.0.0.distinct j k t p' q'
        ]
      ];
      fresh = λ k t p n le. elim (found_after m v k t p) [
        | inl (i, e) ↦ λ q. h.0.2 n le (i ∙ q)
        | inr p' ↦ h.0.0.fresh k t p' n le
      ];
      draws = h.0.0.draws;
      tracked = All-tags v _ js (λ k t p. kept_after m v k t h.0.1 p) h.0.0.tracked;
    };
  }

  files-NewTag :
      (id : String) (t : Tag) (f : World → World)
      → ((v : World) → (f v).manuals ≡ v.manuals)
      → ((v : World) → (f v).uuid ≡ v.uuid)
      → ((v : World) → (f v).drawn ≡ v.drawn)
      → (v : World) → NewTag id t v
      → NewTag id t (f v)
  unfolding tag
  files-NewTag id t f a b c v h =
      let same : (k : String) → tag (f v) k ≡ tag v k =
        λ k. ap (λ d. elim (get d k) [ none ↦ none | some m ↦ some (tag_of m) ]) (a v) in
      (
        (
          Tagged-IsVersioned (framed (Tagged-refl v h.0.0) (a v) (b v) (omega (arith, c v))) h.0.0,
          same id ∙ h.0.1,
          λ n le e. h.0.2 n (omega (arith, le, c v)) (e ∙ ap (λ g. g n) (b v)),
        ),
        λ k e. h.1 k (sym (same k) ∙ e),
      )

  now-NewTag :
      (id : String) (t : Tag) → Ensures (NewTag id t) now (λ _. NewTag id t) (IsVersioned js)
  unfolding now
  now-NewTag id t = record {
    at = λ v h.
        files-NewTag id t (λ w. record w { ticks = w.ticks + 1 }) (λ w. refl) (λ w. refl)
          (λ w. refl) v h;
  }

  modify-NewTag :
      (id : String) (t : Tag) (path : String) (bytes : List ℕ)
      → Ensures
          (NewTag id t)
          (modify (λ w. record w { files = put w.files path bytes }))
          (λ _. NewTag id t)
          (IsVersioned js)
  unfolding ◌>>=◌
  modify-NewTag id t path bytes = record {
    at = λ v h.
        files-NewTag id t (λ w. record w { files = put w.files path bytes }) (λ w. refl) (λ w. refl)
          (λ w. refl) v h;
  }

  make_manual-eq : (m k : Manual) → make_manual m ≡ ok k → m ≡ k
  unfolding make_manual
  make_manual-eq m k h = ground arith

  made :
      (m : Manual)
      → Ensures
          (NewTag m.id (tag_of m))
          (lift (make_manual m))
          (λ k. NewTag k.id (tag_of k))
          (IsVersioned js)
  made m =
      Ensures-lift (make_manual m)
        (λ v k e h. subst (λ (x : Manual). NewTag x.id (tag_of x) v) (make_manual-eq m k e) h)
        (λ v h. h.0.0)

  module _ (strip : String → String) (str : ℕ → String) (max_size : ℕ) where
    store_manual-IsVersioned :
        (title model : String) (bytes : List ℕ) (user : User)
        → strip model ≡ model
        → Stable (IsVersioned js) (store_manual strip str max_size title model bytes user)
    unfolding store_manual
    store_manual-IsVersioned title model bytes user trimmed = Ensures-bind New _ _ uuid4-New λ id.
        Ensures-bind (λ version. NewTag id (model, version)) _ _
          (Ensures-gets _ (λ v h. (h, fresh_version model v)))
          λ version.
            Ensures-bind (λ _. NewTag id (model, version)) _ _
              (modify-NewTag id (model, version) _ bytes)
              λ _.
                Ensures-bind (λ _. NewTag id (model, version)) _ _ (now-NewTag id (model, version))
                  λ at.
                    Ensures-bind (λ k. NewTag k.id (tag_of k)) _ _
                      (Ensures-strengthen
                        (λ v h. subst (λ name. NewTag id (name, version) v) (sym trimmed) h)
                        (made _))
                      λ k.
                        Ensures-bind (λ _. IsVersioned js) _ _ (save-New k)
                          λ _.
                            Stable-bind _ _ (Stable-tags (schedule id) (λ u. schedule-Stable u id))
                              λ _. Stable-pure id

    replace-IsVersioned :
        (o : Option String) → Stable (IsVersioned js) (replace_previous strip str max_size o)
    unfolding replace_previous
    replace-IsVersioned none = Stable-pure tt
    replace-IsVersioned (some id) = Stable-tags _ (λ u. archive_manual-Stable u id)

    validate-IsVersioned :
        (title model : String) (bytes : List ℕ) (type : String)
        → Stable (IsVersioned js) (validate_upload strip str max_size title model bytes type)
    unfolding validate_upload
    validate-IsVersioned title model bytes type = Stable-bind _ _ (Stable-raise_if _ _) λ _.
        Stable-bind _ _ (Stable-raise_if _ _) λ _.
          Stable-bind _ _ (Stable-raise_if _ _)
            λ _. Stable-bind _ _ (Stable-raise_if _ _) λ _. Stable-raise_if _ _

    pub upload-IsVersioned :
        (title model : String) (bytes : List ℕ) (type : String) (previous : Option String)
        (user : User)
        → strip model ≡ model
        → Stable (IsVersioned js) (upload strip str max_size title model bytes type previous user)
    unfolding upload upload_manual audited
    upload-IsVersioned title model bytes type previous user trimmed =
        Stable-bind _ _
          (Stable-bind _ _ (validate-IsVersioned title model bytes type) λ _.
            Stable-bind _ _ (replace-IsVersioned previous)
              λ _. store_manual-IsVersioned title model bytes user trimmed)
          λ id.
            Stable-bind _ _ (Stable-tags _ (λ u. log_entry-Stable u _ _ _ _ _)) λ _. Stable-pure id
