-- ===== src/Reports/Finalize/Stuck.antt =====
-- A renderer that raises in the middle of a finalization.
use text.Mathlib.TextEquality.{eq_iff}
use superion.Prelude.{
  ℕ, ◌+◌, String, ◌≡◌, ◌∙◌, ap, sym, refl, true, false, some, List, arith, string_eq, length,
}
use superion.Effect.{Error, Result, ok, err, ◌>>=◌}
use superion.Dict.{get, put, get-put_self}
use superion.Domain.User.{User}
use superion.Domain.Session.{Session, is_finalized, already_finalized, finalize}
use superion.Domain.Template.{Template}
use superion.Domain.Report.{Content, Report}
use superion.Events.Append.{require_session, get_by_id_for_technician}
use superion.Sessions.Repository.{save}
use superion.Sessions.History.{Later}
use superion.Sessions.Transition.{load_session_context}
use superion.Sessions.Transition.Context.{Loaded}
use superion.World.{World, now}
use superion.World.Bus.{EventBus}
use superion.Reports.Builder.{Python}
use superion.Reports.Live.{report_of, is_closed, build_content}
use superion.Reports.Live.Keeps.{state-build_content}
use superion.Reports.Finalize.{close_session, finalize_body}
use superion.Reports.Finalize.Refusals.{last_step_done, finalize_body-eq}
use superion.Reports.Finalize.Closing.{closing_world, finalized_session, pair_of}

module _ (py : Python) (bus : EventBus) (render : Content → Result (List ℕ × String))
    (sign : String → String) (ttl : ℕ) (sid : String) (user : User) where
  -- A finalized session of the user's own
  already_closed :
      (v : World) (s : Session)
      → get v.sessions sid ≡ some s
      → s.technician_id ≡ user.id
      → is_finalized s.status ≡ true
      → finalize_body py bus render sign ttl sid user v ≡ (err already_finalized, v)
  unfolding finalize_body load_session_context require_session get_by_id_for_technician ◌>>=◌
  already_closed v s stored owner closed = ground (arith, eq_iff s.technician_id user.id)

  module _ (w : World) (s : Session) (t : Template) (r : Report) (c : Content) (e : Error)
      (l : Loaded sid user s t w) (named : s.id ≡ sid)
      (last : s.current_step_index + 1 ≡ length t.steps)
      (completed : last_step_done py w sid t ≡ ok true) (drafted : report_of w sid ≡ some r)
      (draft : is_closed r.status ≡ false)
      (built : (build_content py sid (closing_world w s)).0 ≡ ok c)
      (broken : render c ≡ err e) where
    close_session-eq-err :
        close_session py bus render sign ttl sid s r w ≡ (err e, closing_world w s)
    unfolding close_session now save finalize ◌>>=◌
    close_session-eq-err =
        let content : build_content py sid (closing_world w s) ≡ (ok c, closing_world w s) =
          pair_of _ (ok c) (closing_world w s) built
            (state-build_content py sid (closing_world w s)) in
        ground (arith, l.unfinished)

    stored_after : get (closing_world w s).sessions sid ≡ some (finalized_session w s)
    stored_after =
        ap (λ k. get (put w.sessions s.id (finalized_session w s)) k) (sym named)
        ∙ get-put_self w.sessions s.id (finalized_session w s)

    same_reports : report_of (closing_world w s) sid ≡ some r
    unfolding report_of
    same_reports = drafted

    -- If the renderer raises for the final content, the call raises the same, when the session is
    -- already saved as finalized while its report is still the draft that it was. From then on, in
    -- any world `u` where the stored session is that session at a later time, a call of its
    -- technician raises SESSION_ALREADY_FINALIZED and changes nothing: the finalization cannot be
    -- repeated.
    pub broken_render :
        (u : World) (x : Session)
        → get u.sessions sid ≡ some x
        → Later (finalized_session w s) x
        → let (result, v) = finalize_body py bus render sign ttl sid user w in
          (result ≡ err e)
          × (get v.sessions sid ≡ some (finalized_session w s))
          × (report_of v sid ≡ some r)
          × (finalize_body py bus render sign ttl sid user u ≡ (err already_finalized, u))
    broken_render u x found later =
        rw
          (
            finalize_body-eq py bus render sign ttl w sid user s t l r last completed drafted draft,
            close_session-eq-err,
          )
          (
            refl,
            stored_after,
            same_reports,
            already_closed u (finalized_session w s) (found ∙ ap some (later.frozen refl)) l.owner
                refl,
          )
