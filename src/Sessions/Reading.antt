-- ===== src/Sessions/Reading.antt =====
-- What one may read of a session: backend/src/application/use_cases/events/list_since.py and
-- sessions/get.py, behind backend/src/application/services/session_access.py.
use text.Mathlib.TextEquality.{eq_iff}
use superion.Prelude.{
  Bool-cases, Option-cases, inl, inr, ◌⊎◌, ◌↔◌, ◌≢◌, refl, sym, ap, take, drop, true, ℕ, String,
  ◌≡◌, Bool, ◌&&◌, ◌||◌, Option, none, some, List, arith, string_eq, ◌==◌, if◌then◌else◌,
}
use superion.Effect.{ok, err, Exec, pure, gets, ◌>>=◌}
use superion.Dict.{get}
use superion.Domain.User.{User, Role, is_plant_reader}
use superion.Domain.Session.{Session, SessionStatus}
use superion.Domain.Event.{Event}
use superion.Events.Store.{list_since, next_seq, events_of}
use superion.Events.Store.Invariant.{IsLog}
use superion.Events.Store.Pages.{list_since-eq-drop}
use superion.Events.Append.{session_not_found}
use superion.World.{World}
use superion.Reports.Read.{resolve_session_for_user, grant_access, same_plant, forbidden}

-- `ListEventsSinceUseCase.execute`; the output repeats the fields of the events.
unfoldable pub list_events : String → ℕ → ℕ → User → Exec World (List Event)
list_events session_id since_seq limit current_user = do
  _ ← resolve_session_for_user session_id current_user
  gets (λ w. list_since w.event_store session_id since_seq limit)

-- `SessionDetailOutput`, without its metrics, which are always 0
pub record SessionDetailOutput : Type 0 where
  pub id : String
  pub work_order_id : String
  pub technician_id : String
  pub status : SessionStatus
  pub started_at : ℕ
  pub ended_at : Option ℕ
  pub current_step_index : ℕ
  pub next_seq : ℕ

-- `GetSessionUseCase.execute`
unfoldable pub get_session : String → User → Exec World SessionDetailOutput
get_session session_id current_user = do
  session ← resolve_session_for_user session_id current_user
  number ← gets (λ w. next_seq w.event_store session_id)
  pure (record {
    id = session.id;
    work_order_id = session.work_order_id;
    technician_id = session.technician_id;
    status = session.status;
    started_at = session.started_at;
    ended_at = session.ended_at;
    current_step_index = session.current_step_index;
    next_seq = number;
  })

-- The tests of `grant_access`, as one
abbrev may_read : World → Session → User → Bool
may_read w s user =
    s.technician_id == user.id
    || (is_plant_reader user.role && same_plant (get w.users s.technician_id) user)

-- The technician of the session may read it, and the supervisors and the RAG administrators of the
-- plant of that technician, who must still be known.
abbrev pub CanRead : World → Session → User → Type 0
CanRead w s user =
    (s.technician_id ≡ user.id)
    ⊎ ((user.role ≢ Role.technician)
        × (technician : User) × (get w.users s.technician_id ≡ some technician)
        × (technician.plant_id ≡ user.plant_id))

reads_plant : (r : Role) → r ≢ Role.technician → is_plant_reader r ≡ true
reads_plant Role.technician h = absurd (h refl)
reads_plant Role.supervisor h = refl
reads_plant Role.rag_admin h = refl

module _ (w : World) (sid : String) (user : User) where
  grant_access-eq :
      (s : Session)
      → grant_access s user w ≡ (if may_read w s user then (ok s, w) else (err forbidden, w))
  unfolding grant_access ◌>>=◌
  grant_access-eq s = ground arith

  CanRead-may_read : (s : Session) → CanRead w s user → may_read w s user ≡ true
  CanRead-may_read s (inl own) = ground (arith, own, eq_iff s.technician_id user.id)
  CanRead-may_read s (inr (role, t, found, plant)) =
      ground (arith, reads_plant user.role role, found, plant, eq_iff t.plant_id user.plant_id)

  may_read-CanRead : (s : Session) → may_read w s user ≡ true → CanRead w s user
  may_read-CanRead s h = elim (Bool-cases (s.technician_id == user.id)) [
    | inl own ↦ inl ((eq_iff s.technician_id user.id).0 own)
    | inr other ↦ elim (Option-cases (get w.users s.technician_id)) [
      | inl unknown ↦ absurd (ground (arith, other, unknown))
      | inr (t, found) ↦ inr (
        (λ e. absurd (ground (arith, other, ap is_plant_reader e))),
        t,
        found,
        ground (arith, other, found, eq_iff t.plant_id user.plant_id),
      )
    ]
  ]

  -- The page of the session's log
  abbrev page : ℕ → ℕ → List Event
  page since limit = take limit (drop since (events_of w.event_store sid))

  listed_for :
      (since limit : ℕ) (log : IsLog w.event_store) (s : Session)
      → get w.sessions sid ≡ some s
      → list_events sid since limit user w
        ≡ (if may_read w s user then (ok (page since limit), w) else (err forbidden, w))
  unfolding list_events resolve_session_for_user ◌>>=◌
  listed_for since limit log s stored =
      ground (arith, grant_access-eq s, list_since-eq-drop w.event_store sid since limit log)

  not_there :
      (since limit : ℕ)
      → get w.sessions sid ≡ none
      → list_events sid since limit user w ≡ (err session_not_found, w)
  unfolding list_events resolve_session_for_user ◌>>=◌
  not_there since limit missing = ground arith

  -- Where the events of the logs are numbered without a gap: a call changes nothing, and it returns
  -- exactly if there is such a session and the caller may read it. Then the result is, of the events
  -- of the session in order, the ones behind the first `since`, and at most `limit`.
  pub list_events_lem :
      (log : IsLog w.event_store) (since limit : ℕ)
      → ((list_events sid since limit user w).1 ≡ w)
        × ((es : List Event)
            → ((list_events sid since limit user w).0 ≡ ok es) ↔ (
                ((s : Session) × (get w.sessions sid ≡ some s) × CanRead w s user)
                × (es ≡ page since limit)))
  list_events_lem log since limit = elim (Option-cases (get w.sessions sid)) [
    | inl missing ↦ rw (not_there since limit missing) (
      refl,
      λ es. (
        (λ h. absurd (ground arith)),
        (λ ((s, stored, can), e). absurd (ground (arith, missing, stored))),
      ),
    )
    | inr (s, stored) ↦ elim (Bool-cases (may_read w s user)) [
      | inl allowed ↦
          rw (listed_for since limit log s stored, allowed)
            (
              refl,
              λ es. (
                (λ h. ((s, stored, may_read-CanRead s allowed), ground (arith, h))),
                (λ (can, e). ap ok (sym e)),
              ),
            )
      | inr denied ↦
          rw (listed_for since limit log s stored, denied)
            (
              refl,
              λ es. (
                (λ h. absurd (ground arith)),
                (λ ((u, there, can), e).
                    absurd (ground (arith, denied, stored, there, CanRead-may_read u can))),
              ),
            )
    ]
  ]
