-- ===== src/Http/Errors.antt =====
-- The answers to errors: backend/src/interface/http/exception_handlers.py and
-- backend/src/domain/exceptions.py.
use superion.Prelude.{
  ℕ, String, Bool, true, false, List, [], ◌∷◌, Option, none, some, string_eq, nat_eq, ◌==◌, ◌||◌,
  if◌then◌else◌,
}
use superion.Dict.{Dict}
use superion.Value.{Value}
use superion.Effect.{ErrorClass}
use superion.Effect.ErrorClass.{
  not_found, validation, forbidden, unauthorized, conflict, unavailable, rate_limited,
}
use superion.Domain.Event.{is_one_of}

abbrev pub Details : Type 0
Details = Dict String Value

-- What the handlers are called with. A domain error has its class, code, message and details; an
-- exception of Starlette has its status and its detail; a `RequestValidationError` has its errors, as
-- `jsonable_encoder` gives them.
pub data Raised : Type 0 where
  domain_error : ErrorClass → String → String → Option Details → Raised
  http_exception : ℕ → String → Raised
  request_validation : Value → Raised
  unhandled : Raised

-- A `JSONResponse` with an error envelope
pub record Answer : Type 0 where
  status_code : ℕ
  code : String
  message : String
  trace_id : String
  details : Option Details

-- `correlation_id_var.get() or "unknown"`
unfoldable pub trace_id_of : Option String → String
trace_id_of none = "unknown"
trace_id_of (some id) = if id == "" then "unknown" else id

abbrev pub conflict_codes : List String
conflict_codes =
    "WORK_ORDER_ALREADY_STARTED" ∷ "WORK_ORDER_ALREADY_COMPLETED" ∷ "SESSION_ALREADY_FINALIZED"
    ∷ "SESSION_NOT_FINALIZED" ∷ "STEP_CRITICAL_CANNOT_SKIP" ∷ "STEP_REQUIRES_PHOTO"
    ∷ "STEP_OUT_OF_ORDER" ∷ "STEP_ALREADY_DONE" ∷ "IDEMPOTENCY_KEY_REUSED" ∷ []

abbrev pub unavailable_codes : List String
unavailable_codes =
    "LANGGRAPH_UNAVAILABLE" ∷ "ELEVENLABS_UNAVAILABLE" ∷ "OPENROUTER_UNAVAILABLE" ∷ []

abbrev pub not_found_codes : List String
not_found_codes =
    "NOT_FOUND" ∷ "WORK_ORDER_NOT_FOUND" ∷ "SESSION_NOT_FOUND" ∷ "PHOTO_NOT_FOUND"
    ∷ "MANUAL_NOT_FOUND" ∷ "REPORT_NOT_FOUND" ∷ []

abbrev pub validation_codes : List String
validation_codes =
    "VALIDATION_ERROR" ∷ "PHOTO_VALIDATION_FAILED" ∷ "MANUAL_INVALID_PDF"
    ∷ "PROCEDURE_TEMPLATE_INVALID" ∷ []

-- `isinstance(exc, ...)`
abbrev pub is_class : ErrorClass → ErrorClass → Bool
is_class not_found not_found = true
is_class validation validation = true
is_class forbidden forbidden = true
is_class unauthorized unauthorized = true
is_class conflict conflict = true
is_class unavailable unavailable = true
is_class rate_limited rate_limited = true
is_class _ _ = false

unfoldable pub status_for_domain_error : ErrorClass → String → ℕ
status_for_domain_error c code =
    if is_class c rate_limited || (code == "RATE_LIMITED")
    then 429
    else if is_class c unauthorized
    then 401
    else if is_class c unavailable || is_one_of code unavailable_codes
    then 503
    else if is_class c conflict || is_one_of code conflict_codes
    then 409
    else if is_class c not_found || is_one_of code not_found_codes
    then 404
    else if is_class c validation || is_one_of code validation_codes
    then 422
    else if code == "MANUAL_INDEXING_FAILED"
    then 500
    else if code == "INVALID_SIGNATURE"
    then 401
    else if is_class c forbidden || (code == "FORBIDDEN")
    then 403
    else 500

abbrev pub error_envelope : Option String → ℕ → String → String → Option Details → Answer
unfolding trace_id_of
error_envelope id status code message details = record {
  status_code = status;
  code = code;
  message = message;
  trace_id = trace_id_of id;
  details = details;
}

-- `id` is the correlation id of the request, if it has one.
unfoldable pub respond : Option String → Raised → Answer
unfolding trace_id_of status_for_domain_error
respond id (domain_error c code message details) =
    error_envelope id (status_for_domain_error c code) code message details
respond id (http_exception status detail) =
    if status == 404
    then error_envelope id 404 "NOT_FOUND" "Recurso no encontrado." none
    else if status == 400
    then error_envelope id 400 "VALIDATION_ERROR" detail none
    else error_envelope id status "INTERNAL_ERROR" detail none
respond id (request_validation errors) =
    error_envelope id 422 "VALIDATION_ERROR" "Datos de entrada inválidos."
      (some (("errors", errors) ∷ []))
respond id unhandled = error_envelope id 500 "INTERNAL_ERROR" "Error interno del servidor." none
