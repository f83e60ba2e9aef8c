-- ===== src/Tests/Evidence.antt =====
-- The theorems on the upload and the validation of photos, for a photo of the second step.
use superion.Prelude.{ℕ, String, ◌≡◌, refl, true, false, none, some, List, [], ◌∷◌, string_eq}
use superion.Effect.{Result, ok, ◌>>=◌}
use superion.Dict.{get, put}
use superion.Domain.Photo.{Photo, PhotoStatus}
use superion.World.{World, uuid4, now}
use superion.World.Bus.{socket_bus}
use superion.Photos
use superion.Photos.Validate.{Verdict, validate_photo}
use superion.Photos.Verdicts.{judged, Stores, Unlocks}
use superion.Photos.Decision.{validate_photo_lem}
use superion.Photos.Upload.{UploadPhotoOutput, upload, upload_new, store_photo, emit_ws}
use superion.Photos.Repeat.{upload_again}
use superion.Events.Append.{require_session, get_by_id_for_technician}
use superion.Events.Store.{next_seq, counter_of}
use superion.Tests.Fixtures.{plant, technician}

abbrev photo : Photo
photo = record {
  id = "f1";
  session_id = "s1";
  step_index = 1;
  storage_path = "s1/f1.jpg";
  captured_at = 4;
  validation_status = PhotoStatus.pending;
  validation_feedback = none;
  retries = 0;
  model_version = none;
  event_id = some "e7";
  criteria = none;
}

abbrev photographed : World
photographed = record plant {
  photos = ("f1", photo) ∷ [];
  files = ("s1/f1.jpg", 255 ∷ 216 ∷ 255 ∷ []) ∷ [];
}

abbrev verdict : Verdict
verdict = record { passed = true; feedback = "clear"; model_version = "v1" }

abbrev approve : List ℕ → String → Result Verdict
approve bytes criteria = ok verdict

validate_photo_lem_example :
    let (r, u) = validate_photo socket_bus approve 3 "f1" photographed in
    (r ≡ ok tt)
    × (true ≡ true → Unlocks (judged photo verdict PhotoStatus.accepted 0) u)
    × (true ≡ false → Stores (judged photo verdict PhotoStatus.rejected 1) plant.event_store u)
    × (validate_photo socket_bus approve 3 "f1" u ≡ (ok tt, u))
unfolding get Photos.count_rejected_for_step
validate_photo_lem_example =
    validate_photo_lem socket_bus (λ m w. refl) approve 3 photographed photo (255 ∷ 216 ∷ 255 ∷ [])
      verdict refl refl refl refl

abbrev accepted_upload : UploadPhotoOutput
accepted_upload = record { photo_id = "u0"; status = PhotoStatus.pending; uploaded_at = 0 }

upload_again_example :
    let v =
      (upload socket_bus 100
        (λ path. path)
        "s1"
        1
        "e9"
        (255 ∷ 216 ∷ 255 ∷ [])
        "image/jpeg"
        none
        technician
        plant).1 in
    upload socket_bus 100
      (λ path. path)
      "s1"
      1
      "e9"
      (255 ∷ 216 ∷ 255 ∷ [])
      "image/jpeg"
      none
      technician
      v
    ≡ (ok accepted_upload, v)
unfolding upload upload_new store_photo emit_ws Photos.save_photo Photos.photo_of_event
    Photos.validate_image_magic_bytes require_session get_by_id_for_technician next_seq counter_of
    get put uuid4 now ◌>>=◌
upload_again_example =
    upload_again socket_bus 100 (λ path. path) "s1" 1 "e9" (255 ∷ 216 ∷ 255 ∷ []) "image/jpeg" none
      technician plant accepted_upload refl
