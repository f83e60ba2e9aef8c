-- ===== src/Tests/Library.antt =====
-- The theorems on manuals, for one manual that is being indexed.
use text.Mathlib.TextEquality.{eq_iff}
use superion.Prelude.{ℕ, String, ◌≡◌, ◌∙◌, refl, Bool, false, List, [], ◌∷◌, arith, string_eq}
use superion.Effect.{Result, ok, ◌>>=◌}
use superion.Effect.Rules.{Outcome}
use superion.Dict.{get}
use superion.Domain.Manual.{Manual, ManualStatus, IndexStatus}
use superion.World.{World}
use superion.Manuals.Chunker.{Chunker, PageText}
use superion.Manuals.Lifecycle.{archive}
use superion.Manuals.Index.{begin, finish}
use superion.Manuals.Versions.Kept.{tag}
use superion.Manuals.Versions.Uploads.{IsVersioned}
use superion.Manuals.Versions.Runs.{Step, Run, Run-IsVersioned}
use superion.Tests.Fixtures.{technician, plant}
use superion.Tests.Names.{names, names_differ, r1_other}

abbrev manual : Manual
manual = record {
  id = "r1";
  title = "Pump";
  asset_model = "P100";
  version = 1;
  status = ManualStatus.indexing;
  index_status = IndexStatus.pending;
  storage_path = "plant-1/r1/1.pdf";
  chunk_count = 0;
  uploaded_at = 0;
  uploaded_by_id = "tech-1";
  plant_id = "plant-1";
}

abbrev shelf : World
shelf = record plant {
  manuals = ("r1", manual) ∷ [];
  files = ("plant-1/r1/1.pdf", 37 ∷ []) ∷ [];
  uuid = names;
}

abbrev no_space : ℕ → Bool
no_space c = false

abbrev digits : ℕ → String
digits n = "n"

abbrev chunker : Chunker
chunker = record { chunk_size = 10; overlap = 2 }

-- One page of two characters
abbrev extract : List ℕ → Result (List PageText)
extract bytes = ok (record { page = 1; text = 65 ∷ 66 ∷ [] } ∷ [])

abbrev embed : List (List ℕ) → Result (List (List String))
embed texts = ok (("1.0" ∷ []) ∷ [])

shelf-IsVersioned : IsVersioned [] shelf
unfolding tag get
shelf-IsVersioned = record {
  keyed = λ k m e. ground (arith, eq_iff "r1" k);
  distinct = λ j k t p q. ground (arith, eq_iff "r1" j, eq_iff "r1" k);
  fresh = λ k t p n le q. r1_other n (ground (arith, eq_iff "r1" k) ∙ q);
  draws = names_differ;
  tracked = tt;
}

manual-begun : (begin no_space digits chunker extract embed "r1" shelf).0 ≡ ok manual
unfolding begin get ◌>>=◌
manual-begun = refl

Run-IsVersioned_example :
    IsVersioned []
      (finish no_space digits chunker extract embed "r1" manual (archive "r1" technician shelf).1).1
Run-IsVersioned_example =
    Run-IsVersioned (λ s. s) digits 100 no_space chunker extract embed [] [] shelf
      (finish no_space digits chunker extract embed "r1" manual (archive "r1" technician shelf).1).1
      (Run.step (Step.begun "r1" manual manual-begun)
        (Run.step (Step.archived "r1" technician) (Run.step (Step.finished [] [] manual) Run.stay)))
      shelf-IsVersioned
