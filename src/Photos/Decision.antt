-- ===== src/Photos/Decision.antt =====
-- The validation of a stored photo, from its look-up to its verdict.
use superion.Prelude.{
  ℕ, ◌+◌, String, ◌≡◌, ◌∙◌, ap, refl, Bool, true, false, some, List, arith, string_eq, nat_eq, ltb,
  Bool-cases, inl, inr, if◌then◌else◌,
}
use superion.Effect.{Result, ok, gets, ◌>>=◌}
use superion.Effect.Rules.{Ensures-strengthen, Ensures-if, returns_of_Outcome}
use superion.Effect.Rules.Known.{Ensures-lift_then, Ensures-or_raise_then, Ensures-gets_then}
use superion.Dict.{get}
use superion.Domain.Photo.{Photo, PhotoStatus}
use superion.Events.Append.Rules.{IsQuiet}
use superion.World.{World}
use superion.World.Bus.{EventBus}
use superion.Photos.{count_rejected_for_step}
use superion.Photos.Validate.{
  Verdict, accept, refuse, judge, validate_photo, criteria_of, is_pending,
}
use superion.Photos.Verdicts.{judged, Stores, Unlocks, Leads, accept-Unlocks, refuse-Stores}

-- A photo that no validation will change any more
abbrev pub IsSettled : PhotoStatus → Type 0
IsSettled status = is_pending status ≡ false

settled_again :
    (bus : EventBus) (validator : List ℕ → String → Result Verdict) (max_retries : ℕ) (p : Photo)
    (u : World)
    → get u.photos p.id ≡ some p
    → IsSettled p.validation_status
    → validate_photo bus validator max_retries p.id u ≡ (ok tt, u)
unfolding validate_photo ◌>>=◌
settled_again bus validator max_retries p u stored settled = rw (stored, settled) refl

module _ (bus : EventBus) (quiet : IsQuiet bus) (validator : List ℕ → String → Result Verdict)
    (max_retries : ℕ) (w : World) (photo : Photo) (bytes : List ℕ) (v : Verdict)
    (stored : get w.photos photo.id ≡ some photo)
    (pending : photo.validation_status ≡ PhotoStatus.pending)
    (file : get w.files photo.storage_path ≡ some bytes)
    (answered : validator bytes (criteria_of photo) ≡ ok v) where
  -- The retries that the photo gets when it does not pass
  abbrev pub new_retries : ℕ
  new_retries = count_rejected_for_step w photo.session_id photo.step_index + 1

  -- Its status then
  abbrev pub refusal : PhotoStatus
  refusal = if ltb max_retries new_retries then PhotoStatus.escalated else PhotoStatus.rejected

  opens :
      (Q : World → Type 0)
      → Leads
          (λ u. u ≡ w)
          (if v.passed
            then accept bus validator max_retries photo v
            else (gets (λ u. count_rejected_for_step u photo.session_id photo.step_index)
                >>= λ prior. refuse bus validator max_retries photo v (prior + 1)))
          Q
      → Leads (λ u. u ≡ w) (validate_photo bus validator max_retries photo.id) Q
  unfolding validate_photo judge
  opens Q h =
      Ensures-gets_then _ _ _ (λ u e. ap (λ (x : World). get x.photos photo.id) e ∙ stored)
        (Ensures-or_raise_then photo _ _ _ refl (
          Ensures-if (is_pending photo.validation_status) _ _
            (λ _.
              Ensures-gets_then _ _ _
                (λ u e. ap (λ (x : World). get x.files photo.storage_path) e ∙ file)
                (Ensures-or_raise_then bytes _ _ _ refl (Ensures-lift_then v _ _ answered h)))
            (λ settled. absurd (ground (arith, settled, ap is_pending pending)))))

  passes :
      v.passed ≡ true
      → Leads
          (λ u. u ≡ w)
          (validate_photo bus validator max_retries photo.id)
          (Unlocks (judged photo v PhotoStatus.accepted photo.retries))
  unfolding accept
  passes good = opens _ (
      rw good (
        Ensures-strengthen (λ u e. ap (λ (x : World). x.event_store) e)
          (accept-Unlocks bus quiet validator max_retries photo pending v w.event_store)))

  fails :
      v.passed ≡ false
      → Leads
          (λ u. u ≡ w)
          (validate_photo bus validator max_retries photo.id)
          (Stores (judged photo v refusal new_retries) w.event_store)
  unfolding refuse
  fails bad = opens _ (
      rw bad (
        Ensures-gets_then _ _ _
          (λ u e. ap (λ (x : World). count_rejected_for_step x photo.session_id photo.step_index) e)
          (Ensures-strengthen (λ u e. ap (λ (x : World). x.event_store) e)
            (refuse-Stores bus quiet validator max_retries photo pending v w.event_store
              new_retries))))

  -- On a bus whose handlers never raise, and where the validator answers for a stored pending photo
  -- whose file is there: if the photo passes, the call returns, the
  -- photo is stored as accepted and its step has an accepted photo in the log. If it does not, the
  -- call returns, the log is unchanged, and the photo is stored with one retry more than its step had
  -- refused photos: escalated if that is above the limit, else rejected. In both cases a second
  -- validation of the photo returns and changes nothing.
  pub validate_photo_lem :
      let (r, u) = validate_photo bus validator max_retries photo.id w in
      (r ≡ ok tt)
      × (v.passed ≡ true → Unlocks (judged photo v PhotoStatus.accepted photo.retries) u)
      × (v.passed ≡ false → Stores (judged photo v refusal new_retries) w.event_store u)
      × (validate_photo bus validator max_retries photo.id u ≡ (ok tt, u))
  validate_photo_lem =
      let (r, u) = validate_photo bus validator max_retries photo.id w in
      elim (Bool-cases v.passed) [
        | inl good ↦
            let after = judged photo v PhotoStatus.accepted photo.retries in
            let (a, e, q) = returns_of_Outcome (λ _. Unlocks after) r u ((passes good).at w refl) in
            (
              e,
              (λ _. q),
              (λ bad. absurd (ground (arith, good, bad))),
              settled_again bus validator max_retries after u q.0 refl,
            )
        | inr bad ↦
            let after = judged photo v refusal new_retries in
            let (a, e, q) =
              returns_of_Outcome (λ _. Stores after w.event_store) r u ((fails bad).at w refl) in
            (
              e,
              (λ good. absurd (ground (arith, good, bad))),
              (λ _. q),
              settled_again bus validator max_retries after u q.0
                  (settled_if (ltb max_retries new_retries)),
            )
      ]
    where
      settled_if :
          (b : Bool) → IsSettled (if b then PhotoStatus.escalated else PhotoStatus.rejected)
      settled_if true = refl
      settled_if false = refl
