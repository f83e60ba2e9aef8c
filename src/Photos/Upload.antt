-- ===== src/Photos/Upload.antt =====
-- backend/src/application/use_cases/photos/upload.py. The storage is the dictionary of
-- backend/src/infrastructure/storage/in_memory.py, `sign` gives the URL for a path. The step index of
-- a request is a natural number here; the code refuses a negative one in the photo's constructor.
use superion.Prelude.{
  ℕ, String, not, Option, none, some, List, [], ◌∷◌, ◌||◌, string_eq, nat_eq, ◌==◌, ltb, length,
  if◌then◌else◌,
}
use superion.Effect.{
  validation, Error, domain_error, Exec, pure, gets, raise_if, modify, ◌>>=◌, ◌>>◌,
}
use superion.Dict.{put}
use superion.Value.{Value, Payload}
use superion.Domain.User.{User}
use superion.Domain.Event.{is_one_of}
use superion.Domain.Photo.{PhotoStatus}
use superion.Events.Store.{next_seq}
use superion.Events.Append.{require_session}
use superion.World.{World, uuid4, now}
use superion.World.Bus.{EventBus}
use superion.Photos.{save_photo, photo_of_event, validate_image_magic_bytes}
use Prim.Native.String.{◌++◌ as ◌<>◌}

pub record UploadPhotoOutput : Type 0 where
  pub photo_id : String
  pub status : PhotoStatus
  pub uploaded_at : ℕ

abbrev pub invalid_photo : Error
invalid_photo = domain_error validation "VALIDATION_ERROR"

abbrev pub allowed_content_types : List String
allowed_content_types = "image/jpeg" ∷ "image/png" ∷ "image/webp" ∷ []

-- `{"image/jpeg": "jpg", "image/png": "png", "image/webp": "webp"}[content_type]`
abbrev pub extension : String → String
extension content_type =
    if content_type == "image/jpeg"
    then "jpg"
    else if content_type == "image/png"
    then "png"
    else "webp"

module _ (bus : EventBus) where
  -- `_emit_photo_event` and `_emit_ws`: the message carries the next number, and is not logged.
  unfoldable pub emit_ws : String → String → Payload → Exec World (Unit {0})
  emit_ws session_id event_type payload = do
    seq ← gets (λ w. next_seq w.event_store session_id)
    created_at ← now
    bus.publish (record {
      seq = seq;
      type = event_type;
      session_id = session_id;
      created_at = created_at;
      payload = payload;
    })

  module _ (max_size_bytes : ℕ) (sign : String → String) where
    -- The part of `execute` behind the checks
    unfoldable pub store_photo :
        String → ℕ → String → List ℕ → String → Option String → Exec World UploadPhotoOutput
    store_photo session_id step_index event_id file_bytes content_type criteria = do
      photo_id ← uuid4
      let storage_path = session_id <> ("/" <> (photo_id <> ("." <> extension content_type)))
      modify (λ w. record w { files = put w.files storage_path file_bytes })
      captured_at ← now
      save_photo (record {
        id = photo_id;
        session_id = session_id;
        step_index = step_index;
        storage_path = storage_path;
        captured_at = captured_at;
        validation_status = PhotoStatus.pending;
        validation_feedback = none;
        retries = 0;
        model_version = none;
        event_id = some event_id;
        criteria = criteria;
      })
      emit_ws session_id "photo.captured" (
          ("photo_id", Value.text photo_id)
          ∷ ("step_index", Value.num step_index)
          ∷ ("thumbnail_url", Value.text (sign storage_path))
          ∷ [])
      modify (λ w. record w { validations = photo_id ∷ w.validations })
      pure (record { photo_id = photo_id; status = PhotoStatus.pending; uploaded_at = captured_at })

    -- The part of `execute` behind the look-up of the event id
    unfoldable pub upload_new :
        String → ℕ → String → List ℕ → String → Option String → Exec World UploadPhotoOutput
    upload_new session_id step_index event_id file_bytes content_type criteria = do
      raise_if (not (is_one_of content_type allowed_content_types)) invalid_photo
      raise_if (length file_bytes == 0 || ltb max_size_bytes (length file_bytes)) invalid_photo
      raise_if (not (validate_image_magic_bytes file_bytes content_type)) invalid_photo
      store_photo session_id step_index event_id file_bytes content_type criteria

    -- `UploadPhotoUseCase.execute`
    unfoldable pub upload :
        String → ℕ → String → List ℕ → String → Option String → User → Exec World UploadPhotoOutput
    upload session_id step_index event_id file_bytes content_type criteria current_user = do
      _ ← require_session session_id current_user
      existing ← gets (λ w. photo_of_event w session_id event_id)
      elim existing [
        | some p ↦
            pure (record {
              photo_id = p.id;
              status = p.validation_status;
              uploaded_at = p.captured_at;
            })
        | none ↦ upload_new session_id step_index event_id file_bytes content_type criteria
      ]
