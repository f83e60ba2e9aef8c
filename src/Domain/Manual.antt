-- ===== src/Domain/Manual.antt =====
-- backend/src/domain/entities/manual.py, manual_chunk.py and value_objects/manual_status.py. A text
-- of a chunk is the list of its code points, and an embedding the list of its coordinates, as the
-- embedding service writes them.
use superion.Prelude.{ℕ, String, Bool, true, false, List, [], ◌∷◌, ◌||◌, ltb, if◌then◌else◌}
use superion.Effect.{value_error, Result, ok, err}

pub data ManualStatus : Type 0 where
  active archived indexing error : ManualStatus

pub data IndexStatus : Type 0 where
  pending indexed failed : IndexStatus

pub record Manual : Type 0 where
  pub id : String
  pub title : String
  pub asset_model : String
  pub version : ℕ
  pub status : ManualStatus
  pub index_status : IndexStatus
  pub storage_path : String
  pub chunk_count : ℕ
  pub uploaded_at : ℕ
  pub uploaded_by_id : String
  pub plant_id : String

abbrev pub is_archived : ManualStatus → Bool
is_archived ManualStatus.archived = true
is_archived ManualStatus.active = false
is_archived ManualStatus.indexing = false
is_archived ManualStatus.error = false

abbrev pub is_active : ManualStatus → Bool
is_active ManualStatus.active = true
is_active ManualStatus.archived = false
is_active ManualStatus.indexing = false
is_active ManualStatus.error = false

abbrev pub is_indexed : IndexStatus → Bool
is_indexed IndexStatus.indexed = true
is_indexed IndexStatus.pending = false
is_indexed IndexStatus.failed = false

-- `__post_init__`; a count of chunks is a natural number.
unfoldable pub make_manual : Manual → Result Manual
make_manual m = if ltb m.version 1 then err value_error else ok m

unfoldable pub mark_indexed : Manual → ℕ → Result Manual
mark_indexed m chunk_count =
    if is_indexed m.index_status
    then err value_error
    else ok (record m {
      status = ManualStatus.active;
      index_status = IndexStatus.indexed;
      chunk_count = chunk_count;
    })

unfoldable pub mark_index_failed : Manual → Manual
mark_index_failed m = record m { status = ManualStatus.error; index_status = IndexStatus.failed }

unfoldable pub mark_reindex_pending : Manual → Result Manual
mark_reindex_pending m =
    if is_archived m.status
    then err value_error
    else ok (record m {
      status = ManualStatus.indexing;
      index_status = IndexStatus.pending;
      chunk_count = 0;
    })

unfoldable pub archive : Manual → Result Manual
archive m =
    if is_archived m.status
    then err value_error
    else ok (record m { status = ManualStatus.archived })

pub record ManualChunk : Type 0 where
  pub id : String
  pub manual_id : String
  pub page : ℕ
  pub section_path : String
  pub content : List ℕ
  pub embedding : List String
  pub token_count : ℕ

-- `ManualChunk.__post_init__`; a count of tokens is a natural number.
unfoldable pub make_chunk : ManualChunk → Result ManualChunk
make_chunk c = if ltb c.page 1 || is_empty c.content then err value_error else ok c
  where
    is_empty : List ℕ → Bool
    is_empty [] = true
    is_empty (x ∷ xs) = false
