-- ===== src/Http/Statuses.antt =====
-- The statuses of domain errors, against the catalogue of integration_contracts.md, section 9.
use text.Mathlib.TextEquality.{eq_iff}
use superion.Prelude.{
  ℕ, String, ◌≡◌, refl, Bool, true, false, [], ◌∷◌, Option, some, arith, string_eq, nat_eq, ◌==◌,
  beq_refl, ◌||◌, ◌⊎◌, inl, inr, if◌then◌else◌,
}
use superion.Dict.{Dict, get}
use superion.Effect.{ErrorClass}
use superion.Effect.ErrorClass.{
  not_found, validation, forbidden, unauthorized, conflict, unavailable, rate_limited,
}
use superion.Domain.Event.{is_one_of}
use superion.Http.Errors.{
  Details, Raised, error_envelope, conflict_codes, unavailable_codes, not_found_codes,
  validation_codes, status_for_domain_error, respond,
}

-- The rows of the catalogue
abbrev pub catalogue : Dict String ℕ
catalogue =
    ("UNAUTHORIZED", 401)
    ∷ ("FORBIDDEN", 403)
    ∷ ("NOT_FOUND", 404)
    ∷ ("IDEMPOTENCY_KEY_REUSED", 409)
    ∷ ("WORK_ORDER_NOT_FOUND", 404)
    ∷ ("WORK_ORDER_ALREADY_STARTED", 409)
    ∷ ("WORK_ORDER_ALREADY_COMPLETED", 409)
    ∷ ("SESSION_NOT_FOUND", 404)
    ∷ ("SESSION_ALREADY_FINALIZED", 409)
    ∷ ("SESSION_NOT_ACTIVE", 409)
    ∷ ("AGENT_NOT_PROVISIONED", 422)
    ∷ ("VOICE_CONNECT_FAILED", 503)
    ∷ ("STEP_CRITICAL_CANNOT_SKIP", 409)
    ∷ ("STEP_REQUIRES_PHOTO", 409)
    ∷ ("STEP_OUT_OF_ORDER", 409)
    ∷ ("STEP_ALREADY_DONE", 409)
    ∷ ("PHOTO_NOT_FOUND", 404)
    ∷ ("PHOTO_VALIDATION_FAILED", 422)
    ∷ ("MANUAL_NOT_FOUND", 404)
    ∷ ("MANUAL_INDEXING_FAILED", 500)
    ∷ ("MANUAL_INVALID_PDF", 422)
    ∷ ("PROCEDURE_TEMPLATE_INVALID", 422)
    ∷ ("RATE_LIMITED", 429)
    ∷ ("LANGGRAPH_UNAVAILABLE", 503)
    ∷ ("ELEVENLABS_UNAVAILABLE", 503)
    ∷ ("OPENROUTER_UNAVAILABLE", 503)
    ∷ ("INTERNAL_ERROR", 500)
    ∷ []

-- The status that the comment on a class of errors, or its use in the catalogue, gives to it
abbrev pub status_of_class : ErrorClass → ℕ
status_of_class not_found = 404
status_of_class validation = 422
status_of_class forbidden = 403
status_of_class unauthorized = 401
status_of_class conflict = 409
status_of_class unavailable = 503
status_of_class rate_limited = 429

-- The codes that have a status of their own
abbrev pub has_own_status : String → Bool
has_own_status code =
    (code == "RATE_LIMITED")
    || (is_one_of code unavailable_codes
        || (is_one_of code conflict_codes
            || (is_one_of code not_found_codes
                || (is_one_of code validation_codes
                    || ((code == "MANUAL_INDEXING_FAILED") || (code == "INVALID_SIGNATURE"))))))

abbrev every : (String → ℕ → Bool) → Dict String ℕ → Bool
every f [] = true
every f ((k, n) ∷ d) = if f k n then every f d else false

get-every :
    (f : String → ℕ → Bool) (d : Dict String ℕ) (k : String) (n : ℕ)
    → every f d ≡ true
    → get d k ≡ some n
    → f k n ≡ true
unfolding get
get-every f [] k n h found = ground arith
get-every f ((j, m) ∷ d) k n h found = ground (arith, eq_iff j k, get-every f d k n)

-- One row of the catalogue, for an error of a class with the row's status
agrees : ErrorClass → String → ℕ → Bool
unfolding status_for_domain_error
agrees c code n = if n == status_of_class c then status_for_domain_error c code == n else true

every-agrees : (c : ErrorClass) → every (agrees c) catalogue ≡ true
unfolding agrees status_for_domain_error
every-agrees not_found = refl
every-agrees validation = refl
every-agrees forbidden = refl
every-agrees unauthorized = refl
every-agrees conflict = refl
every-agrees unavailable = refl
every-agrees rate_limited = refl

same_if_tested : (m n : ℕ) → (if n == n then m == n else true) ≡ true → m ≡ n
same_if_tested m n h = ground (arith, beq_refl n)

or_false : (a b : Bool) → (a || b) ≡ false → (a ≡ false) × (b ≡ false)
or_false false false h = (refl, refl)
or_false false true h = absurd (ground arith)
or_false true b h = absurd (ground arith)

module _ (code : String) where
  status-unlisted :
      (c : ErrorClass)
      → (code == "RATE_LIMITED") ≡ false
      → is_one_of code unavailable_codes ≡ false
      → is_one_of code conflict_codes ≡ false
      → is_one_of code not_found_codes ≡ false
      → is_one_of code validation_codes ≡ false
      → (code == "MANUAL_INDEXING_FAILED") ≡ false
      → (code == "INVALID_SIGNATURE") ≡ false
      → status_for_domain_error c code ≡ status_of_class c
  unfolding status_for_domain_error
  status-unlisted not_found a b d e f g h = rw (a, b, d) refl
  status-unlisted validation a b d e f g h = rw (a, b, d, e) refl
  status-unlisted forbidden a b d e f g h = rw (a, b, d, e, f, g, h) refl
  status-unlisted unauthorized a b d e f g h = rw a refl
  status-unlisted conflict a b d e f g h = rw (a, b) refl
  status-unlisted unavailable a b d e f g h = rw a refl
  status-unlisted rate_limited a b d e f g h = refl

  status-own :
      (c : ErrorClass)
      → has_own_status code ≡ false
      → status_for_domain_error c code ≡ status_of_class c
  status-own c h =
      let a = or_false _ _ h in
      let b = or_false _ _ a.1 in
      let d = or_false _ _ b.1 in
      let e = or_false _ _ d.1 in
      let f = or_false _ _ e.1 in
      let g = or_false _ _ f.1 in status-unlisted c a.0 b.0 d.0 e.0 f.0 g.0 g.1

  status-catalogued :
      (c : ErrorClass)
      → get catalogue code ≡ some (status_of_class c)
      → status_for_domain_error c code ≡ status_of_class c
  unfolding agrees
  status-catalogued c found =
      same_if_tested _ _
        (get-every (agrees c) catalogue code (status_of_class c) (every-agrees c) found)

  -- A domain error is answered with its code, message and details, the correlation id of the request
  -- and the status of its class, if the handler lists no other status for its code, or if the code's
  -- row in the catalogue of errors has that status.
  pub respond-domain_error :
      (id : Option String) (c : ErrorClass) (message : String) (details : Option Details)
      → (has_own_status code ≡ false) ⊎ (get catalogue code ≡ some (status_of_class c))
      → respond id (Raised.domain_error c code message details)
        ≡ error_envelope id (status_of_class c) code message details
  unfolding respond
  respond-domain_error id c message details (inl h) = rw (status-own c h) refl
  respond-domain_error id c message details (inr h) = rw (status-catalogued c h) refl
