-- ===== src/Reports/Live/Keeps.antt =====
-- A property of the state that the steps of the live report keep is kept by its handler.
use superion.Prelude.{
  ℕ, ◌+◌, String, ◌≡◌, ◌∙◌, ap, refl, Bool, false, Option, none, some, string_eq,
}
use superion.Dict.{get, put, get-put_self}
use superion.Domain.Session.{is_finalized}
use superion.Effect.{value_error, Result, lift, ◌>>=◌}
use superion.Effect.Rules.{
  Ensures, Ensures-bind, Ensures-pure, Ensures-lift, Ensures-gets, Ensures-or_raise, Ensures-if,
  Ensures-weaken, state_of_outcome,
}
use superion.Value.{Value}
use superion.Domain.Report.{Content, Report, ReportStatus, make_report, with_content}
use superion.World.{World, Message, uuid4, now}
use superion.World.Bus.{EventBus}
use superion.World.Stable.{
  Stable, Stable-gets, Stable-or_raise, Stable-bind, Stable-pure, Stable-if,
}
use superion.Reports.Builder.{Python}
use superion.Reports.Live.{
  save_report, report_of, is_closed, build_content, store_draft, create_report, ensure_report,
  update_report, refresh_report, rebuild, on_bus_message,
}

module _ {P : World → Type 0} where
  -- Building the content only reads.
  pub build_content-Stable : (py : Python) (sid : String) → Stable P (build_content py sid)
  unfolding build_content
  build_content-Stable py sid = Stable-bind _ _ (Stable-gets _) λ found_session.
      Stable-bind _ _ (Stable-or_raise found_session value_error) λ session.
        Stable-bind _ _ (Stable-gets _) λ found_order.
          Stable-bind _ _ (Stable-or_raise found_order value_error) λ order.
            Stable-bind _ _ (Stable-gets _) λ found_template.
              Stable-bind _ _ (Stable-or_raise found_template value_error) λ template.
                Stable-bind _ _ (Stable-gets _) λ found_asset.
                  Stable-bind _ _ (Stable-or_raise found_asset value_error) λ asset.
                    Stable-bind _ _ (Stable-gets _) λ found_user.
                      Stable-bind _ _ (Stable-or_raise found_user value_error) λ technician.
                        Stable-bind _ _ (Stable-gets _) λ events.
                          Stable-bind _ _ (Stable-gets _)
                            λ photos. Ensures-lift _ (λ w c e p. p) (λ w p. p)

pub state-build_content : (py : Python) (sid : String) (w : World) → (build_content py sid w).1 ≡ w
state-build_content py sid w =
    state_of_outcome (λ v. v ≡ w) (build_content py sid w).0 _
      ((build_content-Stable py sid).at w refl)

-- The world with the draft under the next identifier
abbrev pub with_report : World → Report → World
with_report w r = (save_report r (record w { drawn = w.drawn + 1 })).1

-- What `P` must bear: a tick of the clock, a new draft under a new identifier, and the next version of
-- a draft.
pub record IsKept (P : World → Type 0) : Type 0 where
  pub ticked : (w : World) (n : ℕ) → P w → P (record w { ticks = n })
  pub created :
      (w : World) (r : Report)
      → report_of w r.session_id ≡ none
      → r.id ≡ w.uuid w.drawn
      → P w
      → P (with_report w r)
  pub updated :
      (w : World) (sid : String) (r : Report) (c : Content) (at : ℕ)
      → report_of w sid ≡ some r
      → is_closed r.status ≡ false
      → P w
      → P (save_report (with_content r c at) w).1

module _ (py : Python) {P : World → Type 0} (kept : IsKept P) where
  abbrev Without : String → World → Type 0
  Without sid w = P w × (report_of w sid ≡ none)

  abbrev With : String → Report → World → Type 0
  With sid r w = P w × (report_of w sid ≡ some r)

  now-Without : (sid : String) → Ensures (Without sid) now (λ _. Without sid) P
  unfolding now report_of
  now-Without sid = record { at = λ w p. (kept.ticked w _ p.0, p.1) }

  now-With : (sid : String) (r : Report) → Ensures (With sid r) now (λ _. With sid r) P
  unfolding now report_of
  now-With sid r = record { at = λ w p. (kept.ticked w _ p.0, p.1) }

  content-Keeps :
      (Q : World → Type 0) (sid : String)
      → ((w : World) → Q w → P w)
      → Ensures Q (build_content py sid) (λ _. Q) P
  content-Keeps Q sid h = Ensures-weaken (λ c w q. q) h (build_content-Stable py sid)

  report_of-with_report :
      (w : World) (r : Report) → report_of (with_report w r) r.session_id ≡ some r
  unfolding report_of save_report
  report_of-with_report w r =
      ap (λ o. elim o [ none ↦ none | some k ↦ get (put w.reports r.id r) k ])
        (get-put_self w.report_index r.session_id r.id)
      ∙ get-put_self w.reports r.id r

  abbrev draft_of : String → ℕ → Content → String → Report
  draft_of sid at content id = record {
    id = id;
    session_id = sid;
    status = ReportStatus.draft;
    content_json = content;
    version = 1;
    updated_at = at;
    pdf_storage_path = none;
    sha256 = none;
    generated_at = none;
    finalized_at = none;
  }

  store_draft-Stable :
      (sid : String) (at : ℕ) (content : Content)
      → Ensures
          (Without sid)
          (store_draft py sid at content)
          (λ r w. With sid r w × (is_closed r.status ≡ false))
          P
  unfolding store_draft uuid4 make_report save_report ◌>>=◌
  store_draft-Stable sid at content = record {
    at = λ w p.
        let r = draft_of sid at content (w.uuid w.drawn) in
        ((kept.created w r p.1 refl p.0, report_of-with_report w r), refl);
  }

  pub create_report-Stable :
      (sid : String)
      → Ensures
          (Without sid)
          (create_report py sid)
          (λ r w. With sid r w × (is_closed r.status ≡ false))
          P
  unfolding create_report
  create_report-Stable sid =
      Ensures-bind (λ _. Without sid) _ _ (Ensures-gets _ (λ w p. p))
        λ found.
          Ensures-bind (λ _. Without sid) _ _
            (Ensures-or_raise found value_error (λ w a e p. p) (λ w p. p.0))
            λ session.
              Ensures-bind (λ _. Without sid) _ _ (now-Without sid)
                λ at.
                  Ensures-bind (λ _. Without sid) _ _ (content-Keeps (Without sid) sid (λ w p. p.0))
                    λ content. store_draft-Stable sid at content

  pub ensure_report-Stable : (sid : String) → Ensures P (ensure_report py sid) (λ r. With sid r) P
  unfolding ensure_report
  ensure_report-Stable sid =
      Ensures-bind (λ o w. P w × (report_of w sid ≡ o)) _ _ (Ensures-gets _ (λ w p. (p, refl)))
        (elim [
          | some r ↦ Ensures-pure r (λ w p. p)
          | none ↦ Ensures-weaken (λ r w p. p.0) (λ w p. p) (create_report-Stable sid)
        ])

  module _ (equal : Value → Value → Bool) (bus : EventBus)
      (published : (m : Message) → m.type ≡ "report.updated" → Stable P (bus.publish m)) where
    save-Stable :
        (sid : String) (r : Report) (c : Content) (at : ℕ)
        → is_closed r.status ≡ false
        → Ensures (With sid r) (save_report (with_content r c at)) (λ _. P) P
    unfolding save_report
    save-Stable sid r c at unclosed = record {
      at = λ w p. kept.updated w sid r c at p.1 unclosed p.0;
    }

    update_report-Stable :
        (r : Report) (sid : String) (seq : ℕ) (i : Option ℕ)
        → is_closed r.status ≡ false
        → Ensures (With sid r) (update_report py equal bus r sid seq i) (λ _. P) P
    unfolding update_report
    update_report-Stable r sid seq i unclosed =
        Ensures-bind (λ _. With sid r) _ _ (content-Keeps (With sid r) sid (λ w p. p.0))
          λ content.
            Ensures-bind (λ _. With sid r) _ _ (now-With sid r)
              λ at.
                Ensures-bind (λ _. P) _ _ (save-Stable sid r content at unclosed)
                  λ _. Stable-bind _ _ (Stable-gets _) λ next. published _ refl

    pub rebuild-Stable :
        (sid : String) (seq : ℕ) (i : Option ℕ) → Stable P (rebuild py equal bus sid seq i)
    unfolding rebuild refresh_report
    rebuild-Stable sid seq i = Stable-bind _ _ (Stable-gets _) (elim [
      | none ↦ Ensures-pure tt (λ w p. p)
      | some session ↦
          Ensures-if (is_finalized session.status) _ _ (λ _. Ensures-pure tt (λ w p. p))
            (λ _.
              Ensures-bind (λ r. With sid r) _ _ (ensure_report-Stable sid)
                λ r.
                  Ensures-if (is_closed r.status) _ _ (λ _. Ensures-pure tt (λ w p. p.0))
                    (λ unclosed. update_report-Stable r sid seq i unclosed))
    ])

    numbered :
        (n : Result ℕ) (sid : String) (seq : ℕ)
        → Stable P (lift n >>= λ i. rebuild py equal bus sid seq (some i))
    numbered n sid seq =
        Stable-bind _ _ (Ensures-lift n (λ w i e p. p) (λ w p. p))
          λ i. rebuild-Stable sid seq (some i)

    pub on_bus_message-Stable : (m : Message) → Stable P (on_bus_message py equal bus m)
    unfolding on_bus_message
    on_bus_message-Stable m = search (Stable-if, Stable-pure, numbered) depth 9
