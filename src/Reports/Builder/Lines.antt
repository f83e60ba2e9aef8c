-- ===== src/Reports/Builder/Lines.antt =====
-- The content of a report, in terms of the events that it was built from.
use superion.Prelude.{ℕ, String, ◌≡◌, ◌∙◌, sym, ap, refl, List, [], ◌∷◌, map, keep}
use superion.Effect.{Result, ok, err}
use superion.Domain.User.{User}
use superion.Domain.Session.{Session}
use superion.Domain.WorkOrder.{WorkOrder}
use superion.Domain.Template.{Template, Step}
use superion.Domain.Event.{Event}
use superion.Domain.Photo.{Photo}
use superion.Domain.Asset.{Asset}
use superion.Domain.Report.{Content, ProcedureItem, StepStatus}
use superion.Reports.Builder.{
  Python, Tally, no_tally, tally, build, content_of, item_of, finding_of, measurement_of,
}
use superion.Reports.Builder.Summary.{
  is_finding, is_measurement, status_after, tally-findings, tally-measurements, status_of-eq-after,
}

-- What an item of the procedure says of its step
abbrev pub line_of : ProcedureItem → ℕ × String × StepStatus
line_of p = (p.index, p.title, p.status)

module _ (py : Python) (session : Session) (order : WorkOrder) (asset : Asset) (technician : User)
    (template : Template) (photos : List Photo) where
  -- The line that the events alone give a step
  abbrev pub line_after : List Event → Step → ℕ × String × StepStatus
  line_after es s = (s.index, s.title, status_after py es s.index)

  lines_of :
      (es : List Event) (u : Tally) (accepted : List Photo) (steps : List Step)
      → tally py no_tally es ≡ ok u
      → map line_of (map (item_of py u accepted) steps) ≡ map (line_after es) steps
  lines_of es u accepted [] h = refl
  lines_of es u accepted (s ∷ steps) h =
      ap (λ status. (s.index, s.title, status) ∷ map line_of (map (item_of py u accepted) steps))
        (status_of-eq-after py es u s.index h)
      ∙ ap (λ rest. line_after es s ∷ rest) (lines_of es u accepted steps h)

  built :
      (events : List Event) (c : Content)
      → build py session order asset technician template events photos ≡ ok c
      → (u : Tally) × (tally py no_tally events ≡ ok u)
        × (content_of py session order asset technician template photos u ≡ c)
  unfolding build
  built events c h = go (tally py no_tally events) refl h
    where
      go :
          (r : Result Tally)
          → tally py no_tally events ≡ r
          → elim r [
            | ok t ↦ ok (content_of py session order asset technician template photos t)
            | err e ↦ err e
          ]
            ≡ ok c
          → (u : Tally) × (tally py no_tally events ≡ ok u)
            × (content_of py session order asset technician template photos u ≡ c)
      go (ok u) p q = (u, p, cc)
      go (err x) p q = cc

  -- If `build` gives a content: its findings and its measurements are those of the events, all of
  -- them and in their order; and its procedure has one item for each step of the template, in
  -- order, which is done if an event completes the step, else skipped if an event skips it, else
  -- pending.
  pub build_lem :
      (events : List Event) (c : Content)
      → build py session order asset technician template events photos ≡ ok c
      → (c.findings ≡ map (finding_of py) (keep (is_finding py) events))
        × (c.measurements ≡ map (measurement_of py) (keep (is_measurement py) events))
        × (map line_of c.procedure ≡ map (line_after events) template.steps)
  unfolding content_of
  build_lem events c h =
      let (u, p, q) = built events c h in
      (
        ap (λ (x : Content). x.findings) (sym q) ∙ tally-findings py events no_tally u p,
        ap (λ (x : Content). x.measurements) (sym q) ∙ tally-measurements py events no_tally u p,
        ap (λ (x : Content). map line_of x.procedure) (sym q)
            ∙ lines_of events u _ template.steps p,
      )
