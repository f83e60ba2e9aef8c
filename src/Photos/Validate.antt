-- ===== src/Photos/Validate.antt =====
-- backend/src/application/use_cases/photos/validate.py. The validator is a parameter: it may raise.
use superion.Prelude.{
  ℕ, ◌+◌, String, Bool, true, false, none, some, List, [], ◌∷◌, string_eq, ◌==◌, ltb, if◌then◌else◌,
}
use superion.Effect.{
  not_found, Error, domain_error, Result, Exec, pure, lift, gets, or_raise, ◌>>=◌, ◌>>◌,
}
use superion.Dict.{get}
use superion.Value.{Value, Payload}
use superion.Domain.Photo.{Photo, PhotoStatus, mark_accepted, mark_rejected, mark_escalated}
use superion.Events.Append.{emit_system_event}
use superion.World.{World}
use superion.World.Bus.{EventBus}
use superion.Photos.{save_photo, count_rejected_for_step}
use superion.Photos.Upload.{emit_ws}

-- `PhotoValidationResult`
pub record Verdict : Type 0 where
  pub passed : Bool
  pub feedback : String
  pub model_version : String

abbrev pub photo_not_found : Error
photo_not_found = domain_error not_found "PHOTO_NOT_FOUND"

abbrev pub is_pending : PhotoStatus → Bool
is_pending PhotoStatus.pending = true
is_pending PhotoStatus.accepted = false
is_pending PhotoStatus.rejected = false
is_pending PhotoStatus.escalated = false

-- `a or b`, for texts
abbrev pub or_text : String → String → String
or_text a b = if a == "" then b else a

-- `photo.criteria or ""`
abbrev pub criteria_of : Photo → String
criteria_of photo = elim photo.criteria [ none ↦ "" | some c ↦ c ]

module _ (bus : EventBus) (validator : List ℕ → String → Result Verdict) (max_retries : ℕ) where
  -- The branch of a photo that passed
  unfoldable pub accept : Photo → Verdict → Exec World (Unit {0})
  accept photo result = do
    updated ← lift (mark_accepted photo result.feedback result.model_version)
    save_photo updated
    _ ←
        emit_system_event bus photo.session_id "photo" photo.step_index
          (("status", Value.text "accepted")
            ∷ ("photo_id", Value.text photo.id)
            ∷ ("feedback", Value.text result.feedback)
            ∷ [])
          none
    emit_ws bus photo.session_id "photo.validated" (
        ("photo_id", Value.text photo.id)
        ∷ ("step_index", Value.num photo.step_index)
        ∷ ("feedback", Value.text result.feedback)
        ∷ ("caption", Value.text (or_text (criteria_of photo) result.feedback))
        ∷ [])

  -- The payload of `photo.rejected` and `photo.escalated`
  abbrev refusal_payload : Photo → Verdict → ℕ → Payload
  refusal_payload photo result new_retries =
      ("photo_id", Value.text photo.id)
      ∷ ("step_index", Value.num photo.step_index)
      ∷ ("feedback", Value.text result.feedback)
      ∷ ("retries", Value.num new_retries)
      ∷ ("max_retries", Value.num max_retries)
      ∷ []

  -- The branches of a photo that did not pass
  unfoldable pub refuse : Photo → Verdict → ℕ → Exec World (Unit {0})
  refuse photo result new_retries =
      if ltb max_retries new_retries
      then (do
        updated ← lift (mark_escalated photo result.feedback new_retries result.model_version)
        save_photo updated
        emit_ws bus photo.session_id "photo.escalated" (refusal_payload photo result new_retries))
      else (do
        updated ← lift (mark_rejected photo result.feedback new_retries result.model_version)
        save_photo updated
        emit_ws bus photo.session_id "photo.rejected" (refusal_payload photo result new_retries))

  -- The part of `execute` behind the look-up, for a pending photo
  unfoldable pub judge : Photo → Exec World (Unit {0})
  judge photo = do
    stored ← gets (λ w. get w.files photo.storage_path)
    image_bytes ← or_raise stored photo_not_found
    result ← lift (validator image_bytes (criteria_of photo))
    if result.passed then accept photo result else (do
      prior_rejects ← gets (λ w. count_rejected_for_step w photo.session_id photo.step_index)
      refuse photo result (prior_rejects + 1))

  -- `ValidatePhotoUseCase.execute`
  unfoldable pub validate_photo : String → Exec World (Unit {0})
  validate_photo photo_id = do
    found ← gets (λ w. get w.photos photo_id)
    photo ← or_raise found photo_not_found
    if is_pending photo.validation_status then judge photo else pure tt
