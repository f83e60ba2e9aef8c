-- ===== src/Events/Store/Invariant.antt =====
-- The logs are numbered 1, 2, … without a gap, whatever events callers try to append.
use mathlib.Core.Path.{subst}
use text.Mathlib.TextEquality.{eq_iff}
use superion.Prelude.{
  ℕ, suc, ◌+◌, String, ◌≡◌, ◌≢◌, sym, ap, nat_beq_iff, pair_beq_iff, ◌⊎◌, inl, inr, refl, some,
  List, [], ◌∷◌, ◌++◌, arith, ◌==◌, string_eq, pair_eq, pair_beq, nat_eq, length, length-append,
  All, All-append, Bool-cases, beq_refl, if◌then◌else◌,
}
use superion.Effect.{ok, err, value_error, ◌>>=◌}
use superion.Dict.{get, get-put}
use superion.Domain.Event.{Event}
use superion.Events.Store.{
  EventStore, empty, events_of, counter_of, next_seq, record_event, append, get_by_event_id,
}

-- The events carry the numbers `n`, `n + 1`, … in their order.
abbrev pub NumberedFrom : ℕ → List Event → Type 0
NumberedFrom n [] = Unit
NumberedFrom n (e ∷ es) = (e.seq ≡ n) × NumberedFrom (suc n) es

-- `e` stands in the list.
abbrev pub Logged : Event → List Event → Type 0
Logged e [] = ⊥
Logged e (x ∷ xs) = (x ≡ e) ⊎ Logged e xs

pub record IsLog (st : EventStore) : Type 0 where
  pub numbered : (sid : String) → NumberedFrom 1 (events_of st sid)
  pub counted : (sid : String) → length (events_of st sid) ≡ counter_of st sid
  pub owned : (sid : String) → All (λ e. e.session_id ≡ sid) (events_of st sid)
  pub indexed :
      (sid id : String) (e : Event)
      → get_by_event_id st sid id ≡ some e
      → Logged e (events_of st sid) × (e.id ≡ id)

NumberedFrom-append :
    (n : ℕ) (es : List Event) (e : Event)
    → NumberedFrom n es
    → e.seq ≡ length es + n
    → NumberedFrom n (es ++ e ∷ [])
NumberedFrom-append n [] e h eq = (omega arith, tt)
NumberedFrom-append n (x ∷ es) e h eq = (h.0, NumberedFrom-append (suc n) es e h.1 (omega arith))

Logged-append_last : (es : List Event) (e : Event) → Logged e (es ++ e ∷ [])
Logged-append_last [] e = inl refl
Logged-append_last (x ∷ es) e = inr (Logged-append_last es e)

Logged-append : (es : List Event) (e f : Event) → Logged e es → Logged e (es ++ f ∷ [])
Logged-append [] e f h = absurd h
Logged-append (x ∷ es) e f (inl p) = inl p
Logged-append (x ∷ es) e f (inr h) = inr (Logged-append es e f h)

-- What `append` does to each session's log.
pub events_of-record_event :
    (st : EventStore) (e : Event) (sid : String)
    → events_of (record_event st e) sid
      ≡ (if e.session_id == sid then events_of st e.session_id ++ e ∷ [] else events_of st sid)
unfolding events_of record_event
events_of-record_event st e sid =
    ground (arith, get-put st.events e.session_id sid (events_of st e.session_id ++ e ∷ []))

pub counter_of-record_event :
    (st : EventStore) (e : Event) (sid : String)
    → counter_of (record_event st e) sid
      ≡ (if e.session_id == sid then e.seq else counter_of st sid)
unfolding counter_of record_event
counter_of-record_event st e sid = ground (arith, get-put st.seq_counters e.session_id sid e.seq)

pub get_by_event_id-record_event :
    (st : EventStore) (e : Event) (sid id : String)
    → get_by_event_id (record_event st e) sid id
      ≡ (if pair_beq (e.session_id, e.id) (sid, id) then some e else get_by_event_id st sid id)
unfolding get_by_event_id record_event
get_by_event_id-record_event st e sid id =
    get-put st.event_id_index (e.session_id, e.id) (sid, id) e

module _ (st : EventStore) (e : Event) (h : IsLog st)
    (fits : e.seq ≡ counter_of st e.session_id + 1) where
  numbered-record_event : (sid : String) → NumberedFrom 1 (events_of (record_event st e) sid)
  numbered-record_event sid = elim (Bool-cases (e.session_id == sid)) [
    | inl same ↦
        rw (events_of-record_event, same)
          (NumberedFrom-append 1 (events_of st e.session_id) e (h.numbered e.session_id)
            (omega (arith, h.counted e.session_id)))
    | inr other ↦ rw (events_of-record_event, other) (h.numbered sid)
  ]

  counted-record_event :
      (sid : String)
      → length (events_of (record_event st e) sid) ≡ counter_of (record_event st e) sid
  counted-record_event sid = elim (Bool-cases (e.session_id == sid)) [
    | inl same ↦
        rw (events_of-record_event, counter_of-record_event, same)
          (omega
            (arith, length-append (events_of st e.session_id) (e ∷ []), h.counted e.session_id))
    | inr other ↦ rw (events_of-record_event, counter_of-record_event, other) (h.counted sid)
  ]

  owned-record_event :
      (sid : String) → All (λ x. x.session_id ≡ sid) (events_of (record_event st e) sid)
  owned-record_event sid = elim (Bool-cases (e.session_id == sid)) [
    | inl same ↦
        rw (events_of-record_event, same)
          (subst (λ t. All (λ x. x.session_id ≡ t) (events_of st e.session_id ++ e ∷ []))
            ((eq_iff e.session_id sid).0 same)
            (All-append (λ x. x.session_id ≡ e.session_id) (events_of st e.session_id) (e ∷ [])
              (h.owned e.session_id) (refl, tt)))
    | inr other ↦ rw (events_of-record_event, other) (h.owned sid)
  ]

  Logged-record_event :
      (x : Event) (sid : String)
      → Logged x (events_of st sid)
      → Logged x (events_of (record_event st e) sid)
  Logged-record_event x sid l = elim (Bool-cases (e.session_id == sid)) [
    | inl same ↦
        rw (events_of-record_event, same)
          (Logged-append (events_of st e.session_id) x e
            (subst (λ t. Logged x (events_of st t)) (sym ((eq_iff e.session_id sid).0 same)) l))
    | inr other ↦ rw (events_of-record_event, other) l
  ]

  Logged-record_event_self : Logged e (events_of (record_event st e) e.session_id)
  Logged-record_event_self =
      rw (events_of-record_event, beq_refl e.session_id)
        (Logged-append_last (events_of st e.session_id) e)

  indexed_new :
      (sid id : String) (x : Event)
      → e.session_id ≡ sid
      → e.id ≡ id
      → e ≡ x
      → Logged x (events_of (record_event st e) sid) × (x.id ≡ id)
  indexed_new sid id x p q r = (
    subst (λ y. Logged y (events_of (record_event st e) sid)) r
        (subst (λ t. Logged e (events_of (record_event st e) t)) p Logged-record_event_self),
    cc (ap (λ (y : Event). y.id) r),
  )

  indexed-record_event :
      (sid id : String) (x : Event)
      → get_by_event_id (record_event st e) sid id ≡ some x
      → Logged x (events_of (record_event st e) sid) × (x.id ≡ id)
  indexed-record_event sid id x p = elim (Bool-cases (pair_beq (e.session_id, e.id) (sid, id))) [
    | inl same ↦
        indexed_new sid id x
          (ap (λ (k : String × String). k.0) ((pair_beq_iff (e.session_id, e.id) (sid, id)).0 same))
          (ap (λ (k : String × String). k.1) ((pair_beq_iff (e.session_id, e.id) (sid, id)).0 same))
          (ground (arith, get_by_event_id-record_event st e sid id))
    | inr other ↦ (
      Logged-record_event x sid
          (h.indexed sid id x (rw (get_by_event_id-record_event, other) at p)).0,
      (h.indexed sid id x (rw (get_by_event_id-record_event, other) at p)).1,
    )
  ]

  pub record_event-IsLog : IsLog (record_event st e)
  record_event-IsLog = record {
    numbered = numbered-record_event;
    counted = counted-record_event;
    owned = owned-record_event;
    indexed = indexed-record_event;
  }

pub empty-IsLog : IsLog empty
unfolding events_of counter_of get_by_event_id get
empty-IsLog = record {
  numbered = λ sid. tt;
  counted = λ sid. refl;
  owned = λ sid. tt;
  indexed = λ sid id e p. absurd (ground arith);
}

-- Whatever event is handed to `append`, with the right number or a wrong one, the logs stay
-- numbered 1, 2, … without a gap, the counters agree with them, and the index points into them.
pub append-IsLog : (e : Event) (st : EventStore) → IsLog st → IsLog (append e st).1
unfolding append ◌>>=◌
append-IsLog e st h = elim (Bool-cases (e.seq == counter_of st e.session_id + 1)) [
  | inl fits ↦ rw fits (record_event-IsLog st e h ((nat_beq_iff _ _).0 fits))
  | inr wrong ↦ rw wrong h
]

-- An event that carries the number of `next_seq` is appended: the log of its session is longer by
-- this event, every other log is as it was, the next number is one more, and the event is found by
-- its id. With any other number `append` raises and changes nothing.
pub append-next_seq :
    (e : Event) (st : EventStore)
    → (e.seq ≡ next_seq st e.session_id
        → ((append e st).0 ≡ ok e)
          × (events_of (append e st).1 e.session_id ≡ events_of st e.session_id ++ e ∷ [])
          × ((sid : String) → e.session_id ≢ sid → events_of (append e st).1 sid ≡ events_of st sid)
          × (next_seq (append e st).1 e.session_id ≡ next_seq st e.session_id + 1)
          × (get_by_event_id (append e st).1 e.session_id e.id ≡ some e))
      × (e.seq ≢ next_seq st e.session_id → append e st ≡ (err value_error, st))
unfolding append next_seq ◌>>=◌
append-next_seq e st = (
  λ fits. (
    ground arith,
    ground (arith, events_of-record_event st e e.session_id, beq_refl e.session_id),
    λ sid ne. ground (arith, events_of-record_event st e sid, eq_iff e.session_id sid),
    ground (arith, counter_of-record_event st e e.session_id, beq_refl e.session_id),
    ground (
      arith,
      get_by_event_id-record_event st e e.session_id e.id,
      beq_refl e.session_id,
      beq_refl e.id,
    ),
  ),
  λ wrong. ground arith,
)
