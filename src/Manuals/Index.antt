-- ===== src/Manuals/Index.antt =====
-- backend/src/application/use_cases/manuals/index.py. The task reads the manual, sleeps, and does the
-- rest: `begin` and `finish` are its two steps, between which other tasks run. `extract` and `embed`
-- are the extractor of PDF pages and the embedding service; they may raise.
pub mod Outcome
use superion.Prelude.{
  ℕ, zero, suc, ◌+◌, String, Bool, true, false, not, ◌&&◌, Option, none, some, List, [], ◌∷◌, map,
  string_eq, length, if◌then◌else◌,
}
use superion.Effect.{
  value_error, runtime_error, Result, ok, err, Exec, pure, raise, lift, gets, or_raise, ◌>>=◌, ◌>>◌,
}
use superion.Dict.{get}
use superion.Domain.Manual.{Manual, ManualChunk, make_chunk, mark_indexed, mark_index_failed}
use superion.World.{World, uuid4}
use superion.Manuals.Chunker.{Chunker, PageText, TextChunk, chunk_pages}
use superion.Manuals.Repository.{save_manual, get_manual, save_batch, delete_by_manual_id}
use superion.Manuals.Lifecycle.{manual_not_found}

-- `try: m except Exception: cleanup; raise`
unfoldable pub with_cleanup : {A : Type 0} → Exec World A → Exec World (Unit {0}) → Exec World A
unfolding ◌>>=◌
with_cleanup m cleanup s =
    let (r, t) = m s in elim r [ ok a ↦ (ok a, t) | err e ↦ (cleanup >> raise e) t ]

module _ (is_space : ℕ → Bool) (str : ℕ → String) (chunker : Chunker)
    (extract : List ℕ → Result (List PageText))
    (embed : List (List ℕ) → Result (List (List String))) where
  -- `len(content.split())`: a word begins at a character that is no space, behind one or none.
  unfoldable pub count_words : Bool → List ℕ → ℕ
  count_words inside [] = 0
  count_words inside (c ∷ cs) =
      let rest = count_words (not (is_space c)) cs in
      if not (is_space c) && not inside then rest + 1 else rest

  -- The loop over `zip(text_chunks, vectors, strict=True)`
  unfoldable pub make_chunks :
      String → List TextChunk → List (List String) → Exec World (List ManualChunk)
  make_chunks manual_id [] [] = pure []
  make_chunks manual_id [] (v ∷ vs) = raise value_error
  make_chunks manual_id (t ∷ ts) [] = raise value_error
  make_chunks manual_id (t ∷ ts) (v ∷ vs) = do
    id ← uuid4
    chunk ← lift (
        make_chunk (record {
          id = id;
          manual_id = manual_id;
          page = t.page;
          section_path = t.section_path;
          content = t.content;
          embedding = v;
          token_count = count_words false t.content;
        }))
    rest ← make_chunks manual_id ts vs
    pure (chunk ∷ rest)

  -- The body of the `try` behind the sleep. The chunks of a chunker that `make_chunker` gave are
  -- never `none`.
  unfoldable pub index_chunks : String → Manual → Exec World (Unit {0})
  index_chunks manual_id manual = do
    stored ← gets (λ w. get w.files manual.storage_path)
    pdf_bytes ← or_raise stored value_error
    delete_by_manual_id manual_id
    pages ← lift (extract pdf_bytes)
    text_chunks ← or_raise (chunk_pages is_space str chunker pages) runtime_error
    vectors ← lift (embed (map (λ (c : TextChunk). c.content) text_chunks))
    manual_chunks ← make_chunks manual_id text_chunks vectors
    save_batch manual_chunks
    updated ← lift (mark_indexed manual (length manual_chunks))
    save_manual updated

  -- The step up to the sleep: the manual that the task goes on with
  unfoldable pub begin : String → Exec World Manual
  begin manual_id = do found ← gets (λ w. get_manual w manual_id); or_raise found manual_not_found

  -- The step behind the sleep
  unfoldable pub finish : String → Manual → Exec World (Unit {0})
  finish manual_id manual =
      with_cleanup (index_chunks manual_id manual) (save_manual (mark_index_failed manual))

  -- `IndexManualUseCase.execute`, where nothing else runs during the sleep
  unfoldable pub index : String → Exec World (Unit {0})
  index manual_id = begin manual_id >>= finish manual_id
