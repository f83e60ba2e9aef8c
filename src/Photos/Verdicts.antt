-- ===== src/Photos/Verdicts.antt =====
-- What the validation of a photo leads to.
use superion.Prelude.{
  ℕ, ◌+◌, String, ◌≡◌, ◌∙◌, ap, refl, Bool, true, none, some, List, [], ◌∷◌, ◌++◌, arith, string_eq,
  nat_eq, ltb, any, beq_refl, if◌then◌else◌,
}
use superion.Effect.{Result, ok, Exec, ◌>>=◌}
use superion.Effect.Rules.{Outcome, Ensures, Ensures-bind, Ensures-if}
use superion.Effect.Rules.Known.{Ensures-lift_then}
use superion.Dict.{get, get-put_self}
use superion.Value.{Payload}
use superion.Domain.Photo.{Photo, PhotoStatus, mark_accepted, mark_rejected, mark_escalated}
use superion.Domain.Event.{Event}
use superion.Events.Store.{EventStore, next_seq, has_accepted_photo, is_accepted_photo, events_of}
use superion.Events.Append.Effects.{Emitted, Emitted-events_of}
use superion.Events.Append.Rules.{IsQuiet, Ensures-emit_quiet}
use superion.World.{World, Message, now}
use superion.World.Bus.{EventBus, SameStores}
use superion.Photos.{save_photo}
use superion.Photos.Upload.{emit_ws}
use superion.Photos.Validate.{Verdict, accept, refuse}

-- The photo with its verdict
abbrev pub judged : Photo → Verdict → PhotoStatus → ℕ → Photo
judged photo v status retries = record photo {
  validation_status = status;
  validation_feedback = some v.feedback;
  retries = retries;
  model_version = some v.model_version;
}

any-last :
    (f : Event → Bool) (es : List Event) (e : Event) → f e ≡ true → any f (es ++ e ∷ []) ≡ true
any-last f [] e h = ground arith
any-last f (x ∷ es) e h = ground (arith, any-last f es e h)

-- The photo is stored, and the log is `log`.
abbrev pub Stores : Photo → EventStore → World → Type 0
Stores photo log w = (get w.photos photo.id ≡ some photo) × (w.event_store ≡ log)

-- The photo is stored, and its step has an accepted photo.
abbrev pub Unlocks : Photo → World → Type 0
Unlocks photo w =
    (get w.photos photo.id ≡ some photo)
    × (has_accepted_photo w.event_store photo.session_id photo.step_index ≡ true)

-- The action returns, and then `P` holds.
abbrev pub Leads : (World → Type 0) → Exec World (Unit {0}) → (World → Type 0) → Type 0
Leads P m Q = Ensures P m (λ _. Q) (λ _. ⊥)

save_photo-Stores :
    (photo : Photo) (log : EventStore)
    → Leads (λ w. w.event_store ≡ log) (save_photo photo) (Stores photo log)
unfolding save_photo
save_photo-Stores photo log = record { at = λ w p. (get-put_self w.photos photo.id photo, p) }

module _ (bus : EventBus) (quiet : IsQuiet bus) where
  emit_ws-keeps :
      (P : World → Type 0) (sid type : String) (payload : Payload)
      → ((w v : World) → v.photos ≡ w.photos → v.event_store ≡ w.event_store → P w → P v)
      → Leads P (emit_ws bus sid type payload) P
  unfolding emit_ws now ◌>>=◌
  emit_ws-keeps P sid type payload k = record {
    at = λ w p.
        let m : Message = record {
          seq = next_seq w.event_store sid;
          type = type;
          session_id = sid;
          created_at = w.clock w.ticks;
          payload = payload;
        } in
        let u : World = record w { ticks = w.ticks + 1 } in
        let same : SameStores u (bus.publish m u).1 = (bus.publish-SameStores m).at u in
        returned (bus.publish m u).0 (bus.publish m u).1 (quiet m u)
          (k w (bus.publish m u).1 same.photos same.event_store p);
  }
    where
      returned :
          (r : Result (Unit {0})) (v : World) → r ≡ ok tt → P v → Outcome (λ _. P) (λ _. ⊥) r v
      returned r v e q = rw e q

  ws-Stores :
      (photo : Photo) (log : EventStore) (sid type : String) (payload : Payload)
      → Leads (Stores photo log) (emit_ws bus sid type payload) (Stores photo log)
  ws-Stores photo log sid type payload =
      emit_ws-keeps _ sid type payload (λ w v e f p. (ap (λ d. get d photo.id) e ∙ p.0, f ∙ p.1))

  ws-Unlocks :
      (photo : Photo) (sid type : String) (payload : Payload)
      → Leads (Unlocks photo) (emit_ws bus sid type payload) (Unlocks photo)
  ws-Unlocks photo sid type payload = emit_ws-keeps _ sid type payload (λ w v e f p. (
    ap (λ d. get d photo.id) e ∙ p.0,
    ap (λ st. has_accepted_photo st photo.session_id photo.step_index) f ∙ p.1,
  ))

  Emitted-accepted :
      (w v : World) (e : Event)
      → Emitted w v e
      → is_accepted_photo e.step_index e ≡ true
      → has_accepted_photo v.event_store e.session_id e.step_index ≡ true
  unfolding has_accepted_photo
  Emitted-accepted w v e m h =
      ap (any (is_accepted_photo e.step_index)) (
        Emitted-events_of e.session_id m
        ∙ ap
            (λ b.
              if b
              then events_of w.event_store e.session_id ++ e ∷ []
              else events_of w.event_store e.session_id)
            (beq_refl e.session_id))
      ∙ any-last (is_accepted_photo e.step_index) (events_of w.event_store e.session_id) e h

  module _ (validator : List ℕ → String → Result Verdict) (max_retries : ℕ) (photo : Photo)
      (pending : photo.validation_status ≡ PhotoStatus.pending) (v : Verdict) where
    mark_accepted-eq :
        mark_accepted photo v.feedback v.model_version
        ≡ ok (judged photo v PhotoStatus.accepted photo.retries)
    unfolding mark_accepted
    mark_accepted-eq = rw pending refl

    mark_rejected-eq :
        (n : ℕ)
        → mark_rejected photo v.feedback n v.model_version
          ≡ ok (judged photo v PhotoStatus.rejected n)
    unfolding mark_rejected
    mark_rejected-eq n = rw pending refl

    mark_escalated-eq :
        (n : ℕ)
        → mark_escalated photo v.feedback n v.model_version
          ≡ ok (judged photo v PhotoStatus.escalated n)
    unfolding mark_escalated
    mark_escalated-eq n = rw pending refl

    pub accept-Unlocks :
        (log : EventStore)
        → Leads
            (λ w. w.event_store ≡ log)
            (accept bus validator max_retries photo v)
            (Unlocks (judged photo v PhotoStatus.accepted photo.retries))
    unfolding accept get
    accept-Unlocks log =
        let after = judged photo v PhotoStatus.accepted photo.retries in
        Ensures-lift_then after _ _ mark_accepted-eq (
          Ensures-bind (λ _. Stores after log) _ _ (save_photo-Stores after log)
            λ _.
              Ensures-bind (λ _. Unlocks after) _ _
                (Ensures-emit_quiet bus photo.session_id "photo" photo.step_index _ none quiet
                  (λ w u p m. (
                    ap (λ d. get d photo.id) m.others.photos ∙ p.0,
                    Emitted-accepted w u _ m (ground (arith, beq_refl photo.step_index)),
                  )))
                λ _. ws-Unlocks after photo.session_id "photo.validated" _)

    pub refuse-Stores :
        (log : EventStore) (n : ℕ)
        → Leads
            (λ w. w.event_store ≡ log)
            (refuse bus validator max_retries photo v n)
            (Stores
              (judged photo v
                (if ltb max_retries n then PhotoStatus.escalated else PhotoStatus.rejected)
                n)
              log)
    unfolding refuse
    refuse-Stores log n =
        Ensures-if (ltb max_retries n) _ _
          (λ over. rw over (
            Ensures-lift_then _ _ _ (mark_escalated-eq n) (
              Ensures-bind (λ _. Stores (judged photo v PhotoStatus.escalated n) log) _ _
                (save_photo-Stores (judged photo v PhotoStatus.escalated n) log)
                λ _.
                  ws-Stores (judged photo v PhotoStatus.escalated n) log photo.session_id
                    "photo.escalated" _)))
          (λ within. rw within (
            Ensures-lift_then _ _ _ (mark_rejected-eq n) (
              Ensures-bind (λ _. Stores (judged photo v PhotoStatus.rejected n) log) _ _
                (save_photo-Stores (judged photo v PhotoStatus.rejected n) log)
                λ _.
                  ws-Stores (judged photo v PhotoStatus.rejected n) log photo.session_id
                    "photo.rejected" _)))
