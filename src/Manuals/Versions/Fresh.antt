-- ===== src/Manuals/Versions/Fresh.antt =====
-- The version that an upload chooses is larger than every version of its model.
use text.Mathlib.TextEquality.{eq_iff}
use superion.Prelude.{
  ℕ, ◌+◌, ◌≤◌, ◌<◌, String, ◌≡◌, ◌≢◌, Option, none, some, List, [], ◌∷◌, arith, string_eq, ◌==◌,
  keep, ltb, if◌then◌else◌, Option-cases, inl, inr,
}
use superion.Dict.{Dict, get, values}
use superion.Domain.Manual.{Manual}
use superion.World.{World}
use superion.Manuals.Repository.{latest, next_version_for_asset_model}
use superion.Manuals.Versions.Kept.{tag}

-- `max(versions) + 1`
abbrev above : Option Manual → ℕ
above none = 1
above (some m) = m.version + 1

above-latest :
    (m : Manual) (ms : List Manual)
    → (m.version < above (latest (m ∷ ms))) × (above (latest ms) ≤ above (latest (m ∷ ms)))
unfolding latest
above-latest m ms = bounds (latest ms)
  where
    bounds :
        (o : Option Manual)
        → let next : Option Manual = elim o [
          | none ↦ some m
          | some n ↦ if ltb m.version n.version then some n else some m
        ] in
          (m.version < above next) × (above o ≤ above next)
    bounds none = (omega arith, omega arith)
    bounds (some n) = (ground arith, ground arith)

module _ (model : String) where
  of_model : Dict String Manual → List Manual
  of_model d = keep (λ m. m.asset_model == model) (values d)

  above-get :
      (d : Dict String Manual) (k : String) (m : Manual)
      → get d k ≡ some m
      → m.asset_model ≡ model
      → m.version < above (latest (of_model d))
  unfolding get of_model
  above-get [] k m e h = cc
  above-get ((j, n) ∷ d) k m e h =
      ground (
        arith,
        above-latest n (of_model d),
        above-get d k m,
        eq_iff j k,
        eq_iff n.asset_model model,
      )

  -- No manual has the tag that an upload for this model gets.
  pub fresh_version :
      (w : World) (k : String) → tag w k ≢ some (model, next_version_for_asset_model w model)
  unfolding tag next_version_for_asset_model of_model
  fresh_version w k e = elim (Option-cases (get w.manuals k)) [
    | inl p ↦ cc
    | inr (m, p) ↦ ground (arith, above-get w.manuals k m p)
  ]
