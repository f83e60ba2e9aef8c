-- ===== src/Manuals/Versions/Tags.antt =====
-- The model and the version of a manual: nothing but an upload writes them.
use superion.Prelude.{
  ℕ, String, ◌≡◌, ◌∙◌, sym, ap, refl, Bool, none, some, List, [], ◌∷◌, arith, length, string_eq,
}
use superion.Effect.{value_error, Result, ok, Exec, lift, gets, or_raise, ◌>>=◌}
use superion.Effect.Rules.{Ensures, Ensures-bind, Ensures-lift, Ensures-or_raise, Ensures-gets}
use superion.Dict.{get}
use superion.Value.{Payload}
use superion.Domain.User.{User}
use superion.Domain.Manual.{
  Manual, ManualChunk, mark_indexed, mark_index_failed, mark_reindex_pending,
}
use superion.Domain.Manual
use superion.Audit.{AuditAction}
use superion.Audit.Log.{log_entry, audited}
use superion.World.{World, uuid4, now}
use superion.World.Stable.{
  Stable, Stable-bind, Stable-gets, Stable-or_raise, Stable-lift, Stable-pure, Stable-modify,
  Stable-raise,
}
use superion.Manuals.Chunker.{Chunker, PageText, TextChunk}
use superion.Manuals.Repository.{save_manual, get_manual, save_batch, delete_by_manual_id}
use superion.Manuals.Lifecycle.{archive_manual, archive, schedule, reindex, manual_not_found}
use superion.Manuals.Index.{index_chunks, make_chunks, finish}
use superion.Manuals.Index.Outcome.{Ensures-with_cleanup}
use superion.Manuals.Versions.Kept.{
  tag_of, tag, Tagged, framed, save-Tagged, Alike, archive-Alike, reindex-Alike, indexed-Alike,
}

module _ (u : World) where
  -- The manual with the id of `m` has the tag of `m`.
  abbrev pub Tracks : Manual → World → Type 0
  Tracks m v = Tagged u v × (tag v m.id ≡ some (tag_of m))

  save-Stable : (m : Manual) → Ensures (Tracks m) (save_manual m) (λ _. Tagged u) (Tagged u)
  unfolding save_manual
  save-Stable m = record { at = λ v p. save-Tagged m u v p.0 p.1 }

  -- It does not raise.
  save_total :
      {E : World → Type 0} (m : Manual) → Ensures (Tracks m) (save_manual m) (λ _. Tagged u) E
  unfolding save_manual
  save_total m = record { at = λ v p. save-Tagged m u v p.0 p.1 }

  Tracks-Alike : (m n : Manual) (v : World) → Alike m n → Tracks m v → Tracks n v
  Tracks-Alike m n v h p = (p.0, ap (tag v) h.0 ∙ p.1 ∙ ap some (sym h.1))

  -- A change of the manual that keeps its tag
  change :
      (m : Manual) (r : Result Manual)
      → ((n : Manual) → r ≡ ok n → Alike m n)
      → Ensures (Tracks m) (lift r >>= save_manual) (λ _. Tagged u) (Tagged u)
  change m r h =
      Ensures-bind (λ n. Tracks n) _ _
        (Ensures-lift r (λ v n e p. Tracks-Alike m n v (h n e) p) (λ v p. p.0)) save-Stable

  found-Tracks :
      (mid : String) (m : Manual) (v : World) → get v.manuals mid ≡ some m → Tagged u v → Tracks m v
  unfolding tag
  found-Tracks mid m v e h = (h, ground (arith, h.keyed mid m e, e))

  look_up :
      {A : Type 0} (mid : String) (f : Manual → Exec World A)
      → ((m : Manual) → Ensures (Tracks m) (f m) (λ _. Tagged u) (Tagged u))
      → Stable
          (Tagged u)
          (gets (λ w. get_manual w mid) >>= λ found. or_raise found manual_not_found >>= f)
  look_up mid f h =
      Ensures-bind (λ o v. Tagged u v × (o ≡ get v.manuals mid)) _ _
        (Ensures-gets _ (λ v p. (p, refl)))
        λ o.
          Ensures-bind (λ m. Tracks m) _ _
            (Ensures-or_raise o manual_not_found (λ v m e p. found-Tracks mid m v (sym p.1 ∙ e) p.0)
              (λ v p. p.0))
            h

  pub archive_manual-Stable : (mid : String) → Stable (Tagged u) (archive_manual mid)
  unfolding archive_manual
  archive_manual-Stable mid =
      look_up mid _ (λ m. change m (Manual.archive m) (λ n. archive-Alike m n))

  pub schedule-Stable : (mid : String) → Stable (Tagged u) (schedule mid)
  unfolding schedule
  schedule-Stable mid = record { at = λ v p. framed p refl refl (omega arith) }

  pub reindex-Stable : (mid : String) → Stable (Tagged u) (reindex mid)
  unfolding reindex
  reindex-Stable mid = look_up mid _ λ m.
      Ensures-bind (λ n. Tracks n) _ _
        (Ensures-lift (mark_reindex_pending m)
          (λ v n e p. Tracks-Alike m n v (reindex-Alike m n e) p) (λ v p. p.0))
        λ n. Ensures-bind (λ _. Tagged u) _ _ (save-Stable n) (λ _. schedule-Stable mid)

  uuid4-Stable : Stable (Tagged u) uuid4
  unfolding uuid4
  uuid4-Stable = record { at = λ v p. framed p refl refl (omega arith) }

  now-Stable : Stable (Tagged u) now
  unfolding now
  now-Stable = record { at = λ v p. framed p refl refl (omega arith) }

  pub log_entry-Stable :
      (actor : String) (action : AuditAction) (type target : String) (payload : Payload)
      → Stable (Tagged u) (log_entry actor action type target payload)
  unfolding log_entry
  log_entry-Stable actor action type target payload = Stable-bind _ _ uuid4-Stable λ id.
      Stable-bind _ _ (Stable-gets _) (elim [
        | some e ↦ Stable-pure e
        | none ↦ Stable-bind _ _ now-Stable λ at. Stable-bind _ _ (Stable-lift _) λ entry.
            Stable-bind _ _ (Stable-modify _ (λ v p. framed p refl refl (omega arith)))
              λ _. Stable-pure entry
      ])

  audited-Stable :
      {A : Type 0} (action : AuditAction) (type : String) (actor target : A → String)
      (payload : A → Payload) (m : Exec World A)
      → Stable (Tagged u) m
      → Stable (Tagged u) (audited action type actor target payload m)
  unfolding audited
  audited-Stable action type actor target payload m h = Stable-bind _ _ h λ a.
      Stable-bind _ _ (log_entry-Stable (actor a) action type (target a) (payload a))
        λ _. Stable-pure a

  pub archive-Stable : (mid : String) (user : User) → Stable (Tagged u) (archive mid user)
  unfolding archive
  archive-Stable mid user = audited-Stable _ _ _ _ _ _ (archive_manual-Stable mid)

  module _ (is_space : ℕ → Bool) (str : ℕ → String) (chunker : Chunker)
      (extract : List ℕ → Result (List PageText))
      (embed : List (List ℕ) → Result (List (List String))) where
    make_chunks-Stable :
        (P : World → Type 0) (mid : String) (ts : List TextChunk) (vs : List (List String))
        → Stable P uuid4
        → Stable P (make_chunks is_space str chunker extract embed mid ts vs)
    unfolding make_chunks
    make_chunks-Stable P mid [] [] h = Stable-pure []
    make_chunks-Stable P mid [] (v ∷ vs) h = Stable-raise value_error
    make_chunks-Stable P mid (t ∷ ts) [] h = Stable-raise value_error
    make_chunks-Stable P mid (t ∷ ts) (v ∷ vs) h = Stable-bind _ _ h λ id.
        Stable-bind _ _ (Stable-lift _)
          λ c. Stable-bind _ _ (make_chunks-Stable P mid ts vs h) λ cs. Stable-pure (c ∷ cs)

    save_batch-Tracks : (m : Manual) (cs : List ManualChunk) → Stable (Tracks m) (save_batch cs)
    unfolding save_batch tag
    save_batch-Tracks m [] = record { at = λ v p. p }
    save_batch-Tracks m (c ∷ cs) = record { at = λ v p. (framed p.0 refl refl (omega arith), p.1) }

    delete-Tracks : (m : Manual) (mid : String) → Stable (Tracks m) (delete_by_manual_id mid)
    unfolding delete_by_manual_id tag
    delete-Tracks m mid = record { at = λ v p. (framed p.0 refl refl (omega arith), p.1) }

    uuid4-Tracks : (m : Manual) → Stable (Tracks m) uuid4
    unfolding uuid4 tag
    uuid4-Tracks m = record { at = λ v p. (framed p.0 refl refl (omega arith), p.1) }

    index_chunks-Tracks :
        (mid : String) (m : Manual)
        → Ensures
            (Tracks m)
            (index_chunks is_space str chunker extract embed mid m)
            (λ _. Tagged u)
            (Tracks m)
    unfolding index_chunks
    index_chunks-Tracks mid m =
        Ensures-bind (λ _. Tracks m) _ _ (Stable-gets _)
          λ stored.
            Ensures-bind (λ _. Tracks m) _ _ (Stable-or_raise _ _)
              λ pdf_bytes.
                Ensures-bind (λ _. Tracks m) _ _ (delete-Tracks m mid)
                  λ _.
                    Ensures-bind (λ _. Tracks m) _ _ (Stable-lift _)
                      λ pages.
                        Ensures-bind (λ _. Tracks m) _ _ (Stable-or_raise _ _)
                          λ text_chunks.
                            Ensures-bind (λ _. Tracks m) _ _ (Stable-lift _)
                              λ vectors.
                                Ensures-bind (λ _. Tracks m) _ _
                                  (make_chunks-Stable (Tracks m) mid text_chunks vectors
                                    (uuid4-Tracks m))
                                  λ cs.
                                    Ensures-bind (λ _. Tracks m) _ _ (save_batch-Tracks m cs)
                                      λ _.
                                        Ensures-bind (λ k. Tracks k) _ _
                                          (Ensures-lift _
                                            (λ v k e p.
                                              Tracks-Alike m k v (indexed-Alike m k (length cs) e)
                                                p)
                                            (λ v p. p))
                                          λ k. save_total k

    pub finish-Tagged :
        (mid : String) (m : Manual)
        → Ensures
            (Tracks m)
            (finish is_space str chunker extract embed mid m)
            (λ _. Tagged u)
            (Tagged u)
    unfolding finish mark_index_failed
    finish-Tagged mid m =
        Ensures-with_cleanup _ _ (index_chunks-Tracks mid m) (save-Stable (mark_index_failed m))
