-- ===== src/Reports/Live/Frozen.antt =====
-- What the live report does to the reports that are there.
use superion.Prelude.{◌≤◌, String, ◌≡◌, ◌∙◌, sym, ap, refl, Bool, List, [], ◌∷◌, arith, string_eq}
use superion.Effect.Rules.{Outcome-of_state, state_of_outcome}
use superion.Dict.{get}
use superion.Value.{Value}
use superion.World.{World, Message}
use superion.World.Bus.{EventBus}
use superion.World.Stable.{Stable}
use superion.Reports.Builder.{Python}
use superion.Reports.Live.{report_of, on_bus_message}
use superion.Reports.Live.Keeps.{IsKept, on_bus_message-Stable}
use superion.Reports.Live.Filed.{
  IsFiled, ReportsAfter, Grown-refl, ReportsAfter-refl, ReportsAfter-trans, created-ReportsAfter,
  updated-ReportsAfter,
}

-- The publication of a message of this type leaves the reports, the files and the identifiers in use
-- alone.
pub record IsAside (bus : EventBus) (type : String) : Type 0 where
  pub reports : (m : Message) (w : World) → m.type ≡ type → (bus.publish m w).1.reports ≡ w.reports
  pub report_index :
      (m : Message) (w : World) → m.type ≡ type → (bus.publish m w).1.report_index ≡ w.report_index
  pub files : (m : Message) (w : World) → m.type ≡ type → (bus.publish m w).1.files ≡ w.files
  pub drawn : (m : Message) (w : World) → m.type ≡ type → w.drawn ≤ (bus.publish m w).1.drawn

aside-ReportsAfter :
    (w v : World)
    → v.reports ≡ w.reports
    → v.report_index ≡ w.report_index
    → w.drawn ≤ v.drawn
    → v.uuid ≡ w.uuid
    → IsFiled w
    → ReportsAfter w v
unfolding report_of
aside-ReportsAfter w v a b c d h = record {
  filed = record {
    session = λ sid r e. h.session sid r (same sid ∙ e);
    id = λ sid r e. ap (λ i. get i sid) b ∙ h.id sid r (same sid ∙ e);
    fresh = λ sid k e n le q.
        h.fresh sid k (ap (λ i. get i sid) (sym b) ∙ e) n (omega (arith, le, c))
          (q ∙ ap (λ f. f n) d);
    distinct = λ m n q. h.distinct m n (ap (λ f. f m) (sym d) ∙ q ∙ ap (λ f. f n) d);
  };
  grown = λ sid r e. (r, sym (same sid) ∙ e, Grown-refl r);
}
  where
    same : (sid : String) → report_of w sid ≡ report_of v sid
    same sid = rw (a, b) refl

ReportsAfter-IsKept : (u : World) → IsKept (ReportsAfter u)
ReportsAfter-IsKept u = record {
  ticked =
      λ w n p. ReportsAfter-trans p (aside-ReportsAfter w _ refl refl (omega arith) refl p.filed);
  created = λ w r e f p. ReportsAfter-trans p (created-ReportsAfter w r p.filed e f);
  updated =
      λ w sid r c at e f p. ReportsAfter-trans p (updated-ReportsAfter w r p.filed sid c at e f);
}

module _ (py : Python) (equal : Value → Value → Bool) (bus : EventBus)
    (aside : IsAside bus "report.updated") where
  publish-Stable :
      (u : World) (m : Message)
      → m.type ≡ "report.updated"
      → Stable (ReportsAfter u) (bus.publish m)
  publish-Stable u m e = record {
    at = λ w p. Outcome-of_state (ReportsAfter u) (bus.publish m w).0 (bus.publish m w).1 (
        ReportsAfter-trans p (
          aside-ReportsAfter w (bus.publish m w).1 (aside.reports m w e) (aside.report_index m w e)
            (aside.drawn m w e) ((bus.publish-SameStores m).at w).uuid p.filed));
  }

  -- The live report handles the messages one after the other; an exception ends only its own one.
  unfoldable pub listen : List Message → World → World
  listen [] w = w
  listen (m ∷ ms) w = listen ms (on_bus_message py equal bus m w).1

  -- Whatever messages the live report handles, and whether its handler returns or raises: each
  -- session that had a report has it still, under the same id and with no smaller version, and a
  -- report that was finalized is as it was.
  pub listen-ReportsAfter :
      (ms : List Message) (w : World) → IsFiled w → ReportsAfter w (listen ms w)
  unfolding listen
  listen-ReportsAfter [] w h = ReportsAfter-refl w h
  listen-ReportsAfter (m ∷ ms) w h =
      let step : ReportsAfter w (on_bus_message py equal bus m w).1 =
        state_of_outcome (ReportsAfter w) (on_bus_message py equal bus m w).0 _ (
          (on_bus_message-Stable py (ReportsAfter-IsKept w) equal bus (publish-Stable w) m).at w
            (ReportsAfter-refl w h)) in
      ReportsAfter-trans step (listen-ReportsAfter ms _ step.filed)
