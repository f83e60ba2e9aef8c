-- ===== src/Manuals/Lifecycle.antt =====
-- backend/src/application/use_cases/manuals/upload.py, archive.py and reindex.py. `strip` is Python's
-- method of a text, `str` prints a number. `schedule` starts a task in the background: `indexings`
-- lists the manuals that it was called for.
use superion.Prelude.{
  ℕ, String, not, Option, none, some, List, [], ◌∷◌, ◌||◌, string_eq, nat_eq, ◌==◌, ltb, length,
}
use superion.Effect.{
  not_found, validation, Error, domain_error, Exec, pure, lift, gets, or_raise, raise_if, modify,
  ◌>>=◌, ◌>>◌,
}
use superion.Dict.{put}
use superion.Domain.User.{User}
use superion.Domain.Manual
use superion.Domain.Manual.{Manual, ManualStatus, IndexStatus, make_manual, mark_reindex_pending}
use superion.Audit.{AuditAction}
use superion.Audit.Log.{audited}
use superion.Photos.{starts_with}
use superion.World.{World, uuid4, now}
use superion.Manuals.Repository.{save_manual, get_manual, next_version_for_asset_model}
use Prim.Native.String.{◌++◌ as ◌<>◌}

abbrev pub manual_not_found : Error
manual_not_found = domain_error not_found "MANUAL_NOT_FOUND"

abbrev invalid_manual : Error
invalid_manual = domain_error validation "VALIDATION_ERROR"

abbrev invalid_pdf : Error
invalid_pdf = domain_error validation "MANUAL_INVALID_PDF"

-- `b"%PDF"`
abbrev pub pdf_magic : List ℕ
pdf_magic = 37 ∷ 80 ∷ 68 ∷ 70 ∷ []

-- `ArchiveManualUseCase.execute` without its decorator, and the archiving in an upload
unfoldable pub archive_manual : String → Exec World (Unit {0})
archive_manual manual_id = do
  found ← gets (λ w. get_manual w manual_id)
  manual ← or_raise found manual_not_found
  archived ← lift (Manual.archive manual)
  save_manual archived

-- `ArchiveManualUseCase.execute`, for a user
unfoldable pub archive : String → User → Exec World (Unit {0})
archive manual_id current_user =
    audited AuditAction.manual_archive "manual" (λ _. current_user.id) (λ _. manual_id) (λ _. [])
      (archive_manual manual_id)

unfoldable pub schedule : String → Exec World (Unit {0})
unfolding ◌>>=◌
schedule manual_id = modify (λ w. record w { indexings = manual_id ∷ w.indexings })

-- `ReindexManualUseCase.execute`
unfoldable pub reindex : String → Exec World (Unit {0})
reindex manual_id = do
  found ← gets (λ w. get_manual w manual_id)
  manual ← or_raise found manual_not_found
  updated ← lift (mark_reindex_pending manual)
  save_manual updated
  schedule manual_id

module _ (strip : String → String) (str : ℕ → String) (max_size_bytes : ℕ) where
  unfoldable pub validate_upload : String → String → List ℕ → String → Exec World (Unit {0})
  validate_upload title asset_model file_bytes content_type = do
    raise_if (strip title == "") invalid_manual
    raise_if (strip asset_model == "") invalid_manual
    raise_if (not (content_type == "application/pdf")) invalid_manual
    raise_if (length file_bytes == 0 || ltb max_size_bytes (length file_bytes)) invalid_manual
    raise_if (ltb (length file_bytes) 5 || not (starts_with file_bytes pdf_magic)) invalid_pdf

  -- `if replaces_manual_id is not None: ...`
  unfoldable pub replace_previous : Option String → Exec World (Unit {0})
  replace_previous none = pure tt
  replace_previous (some previous_id) = archive_manual previous_id

  -- The part of `execute` behind the checks and the archiving
  unfoldable pub store_manual : String → String → List ℕ → User → Exec World String
  store_manual title asset_model file_bytes current_user = do
    manual_id ← uuid4
    version ← gets (λ w. next_version_for_asset_model w asset_model)
    let storage_path =
        current_user.plant_id <> ("/" <> (manual_id <> ("/" <> (str version <> ".pdf"))))
    modify (λ w. record w { files = put w.files storage_path file_bytes })
    uploaded_at ← now
    manual ← lift (
        make_manual (record {
          id = manual_id;
          title = strip title;
          asset_model = strip asset_model;
          version = version;
          status = ManualStatus.indexing;
          index_status = IndexStatus.pending;
          storage_path = storage_path;
          chunk_count = 0;
          uploaded_at = uploaded_at;
          uploaded_by_id = current_user.id;
          plant_id = current_user.plant_id;
        }))
    save_manual manual
    schedule manual_id
    pure manual_id

  -- The body of `UploadManualUseCase.execute`; the result is the id of the output, whose status is
  -- `pending`.
  unfoldable pub upload_manual :
      String → String → List ℕ → String → Option String → User → Exec World String
  upload_manual title asset_model file_bytes content_type replaces_manual_id current_user = do
    validate_upload title asset_model file_bytes content_type
    replace_previous replaces_manual_id
    store_manual title asset_model file_bytes current_user

  -- `UploadManualUseCase.execute`
  unfoldable pub upload :
      String → String → List ℕ → String → Option String → User → Exec World String
  upload title asset_model file_bytes content_type replaces_manual_id current_user =
      audited AuditAction.manual_upload "manual" (λ _. current_user.id) (λ id. id) (λ _. [])
        (upload_manual title asset_model file_bytes content_type replaces_manual_id current_user)
