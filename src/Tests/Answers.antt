-- ===== src/Tests/Answers.antt =====
-- The theorem on the answers to errors.
use superion.Prelude.{◌≡◌, refl, none, some, inr, string_eq}
use superion.Dict.{get}
use superion.Effect.ErrorClass.{conflict}
use superion.Http.Errors.{Raised, error_envelope, respond}
use superion.Http.Statuses.{respond-domain_error}

respond-domain_error_example :
    respond (some "r-1") (Raised.domain_error conflict "STEP_REQUIRES_PHOTO" "Falta la foto." none)
    ≡ error_envelope (some "r-1") 409 "STEP_REQUIRES_PHOTO" "Falta la foto." none
unfolding get
respond-domain_error_example =
    respond-domain_error "STEP_REQUIRES_PHOTO" (some "r-1") conflict "Falta la foto." none
      (inr refl)
