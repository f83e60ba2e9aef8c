-- ===== src/Manuals/Index/Outcome.antt =====
-- What an indexing leaves behind, whether it succeeds or fails.
use superion.Prelude.{ℕ, String, ◌≡◌, ◌≢◌, Bool, none, some, List, [], string_eq}
use superion.Effect.{Result, ok, err, Exec, raise, ◌>>=◌, ◌>>◌}
use superion.Effect.Rules.{Outcome, Ensures, Ensures-bind, Ensures-raise}
use superion.Dict.{get, get_or}
use superion.Domain.Manual.{Manual, ManualChunk, ManualStatus, IndexStatus, mark_index_failed}
use superion.World.{World}
use superion.Manuals.Chunker.{Chunker, PageText}
use superion.Manuals.Repository.{count_by_manual_id}
use superion.Manuals.Index.{with_cleanup}

module _ {A : Type 0} {P : World → Type 0} {Q : A → World → Type 0} {E F : World → Type 0} where
  pub Ensures-with_cleanup :
      (m : Exec World A) (cleanup : Exec World (Unit {0}))
      → Ensures P m Q E
      → Ensures E cleanup (λ _. F) F
      → Ensures P (with_cleanup m cleanup) Q F
  unfolding with_cleanup ◌>>=◌
  Ensures-with_cleanup m cleanup h k = record { at = λ w p. after (m w).0 (m w).1 (h.at w p) }
    where
      after :
          (r : Result A) (t : World)
          → Outcome Q E r t
          → let o : Result A × World = elim r [
            | ok a ↦ (ok a, t)
            | err e ↦ (cleanup >> raise e) t
          ] in
            Outcome Q F o.0 o.1
      after (ok a) t q = q
      after (err e) t x =
          (Ensures-bind {Q = Q} {E = F} (λ _. F) cleanup (λ _. raise e) k
              (λ _. Ensures-raise e (λ s p. p))).at
            t x

module _ (is_space : ℕ → Bool) (str : ℕ → String) (chunker : Chunker)
    (extract : List ℕ → Result (List PageText))
    (embed : List (List ℕ) → Result (List (List String))) (mid : String) (m : Manual)
    (w : World) where
  -- The manuals are as before, and the old chunks of the manual are gone.
  abbrev Cleared : World → Type 0
  Cleared v = (v.manuals ≡ w.manuals) × (get v.chunks mid ≡ none)

  abbrev Mine : ManualChunk → Type 0
  Mine c = c.manual_id ≡ mid

  -- The manuals are as before.
  abbrev Same : World → Type 0
  Same v = v.manuals ≡ w.manuals

  -- The manual's chunks are these.
  abbrev Holds : List ManualChunk → World → Type 0
  Holds cs v = Same v × (get_or v.chunks mid [] ≡ cs)

  -- The manual as it is when it is indexed
  abbrev indexed : ℕ → Manual
  indexed n = record m {
    status = ManualStatus.active;
    index_status = IndexStatus.indexed;
    chunk_count = n;
  }

  -- The manuals are as before, but for this one.
  abbrev Stored : Manual → World → Type 0
  Stored k v =
      (get v.manuals mid ≡ some k) × ((j : String) → j ≢ mid → get v.manuals j ≡ get w.manuals j)

  abbrev Indexed : Unit {0} → World → Type 0
  Indexed _ v = Stored (indexed (count_by_manual_id v mid)) v

  abbrev Failed : World → Type 0
  Failed = Stored (mark_index_failed m)
