-- ===== src/Domain/Photo.antt =====
-- backend/src/domain/entities/evidence_photo.py and value_objects/photo_status.py. The guards of
-- `__post_init__` hold by the type: `step_index` and `retries` are natural numbers.
use superion.Prelude.{ℕ, String, Option, some}
use superion.Effect.{value_error, Result, ok, err}

pub data PhotoStatus : Type 0 where
  pending accepted rejected escalated : PhotoStatus

pub record Photo : Type 0 where
  pub id : String
  pub session_id : String
  pub step_index : ℕ
  pub storage_path : String
  pub captured_at : ℕ
  pub validation_status : PhotoStatus
  pub validation_feedback : Option String
  pub retries : ℕ
  pub model_version : Option String
  pub event_id : Option String
  pub criteria : Option String

-- `if self.validation_status != PhotoStatus.PENDING: raise ValueError`
abbrev only_pending : PhotoStatus → Photo → Result Photo
only_pending PhotoStatus.pending p = ok p
only_pending PhotoStatus.accepted p = err value_error
only_pending PhotoStatus.rejected p = err value_error
only_pending PhotoStatus.escalated p = err value_error

unfoldable pub mark_accepted : Photo → String → String → Result Photo
mark_accepted p feedback model_version = only_pending p.validation_status (record p {
  validation_status = PhotoStatus.accepted;
  validation_feedback = some feedback;
  model_version = some model_version;
})

unfoldable pub mark_rejected : Photo → String → ℕ → String → Result Photo
mark_rejected p feedback retries model_version = only_pending p.validation_status (record p {
  validation_status = PhotoStatus.rejected;
  validation_feedback = some feedback;
  retries = retries;
  model_version = some model_version;
})

unfoldable pub mark_escalated : Photo → String → ℕ → String → Result Photo
mark_escalated p feedback retries model_version = only_pending p.validation_status (record p {
  validation_status = PhotoStatus.escalated;
  validation_feedback = some feedback;
  retries = retries;
  model_version = some model_version;
})
