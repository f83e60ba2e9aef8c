-- ===== src/Manuals/Repository.antt =====
-- backend/src/infrastructure/persistence/in_memory/manual_repository.py and
-- manual_chunk_repository.py.
use superion.Prelude.{
  ℕ, ◌+◌, String, Option, none, some, List, [], ◌∷◌, ◌++◌, string_eq, ◌==◌, ◌&&◌, ltb, keep, length,
  if◌then◌else◌,
}
use superion.Effect.{Exec, ok}
use superion.Dict.{get, get_or, put, pop, values}
use superion.Domain.Manual.{Manual, ManualChunk, is_active}
use superion.World.{World}

-- `InMemoryManualRepository.save`
unfoldable pub save_manual : Manual → Exec World (Unit {0})
save_manual m w = (ok tt, record w { manuals = put w.manuals m.id m })

-- `InMemoryManualRepository.get_by_id`
abbrev pub get_manual : World → String → Option Manual
get_manual w manual_id = get w.manuals manual_id

-- The place of `m` in front of the manuals that are not later than it
unfoldable pub insert : Manual → List Manual → List Manual
insert m [] = m ∷ []
insert m (n ∷ ms) =
    let rest = insert m ms in if ltb m.uploaded_at n.uploaded_at then n ∷ rest else m ∷ n ∷ ms

-- `sorted(manuals, key=lambda manual: manual.uploaded_at, reverse=True)`, which keeps the order of
-- manuals of the same time
unfoldable pub newest_first : List Manual → List Manual
unfolding insert
newest_first [] = []
newest_first (m ∷ ms) = insert m (newest_first ms)

unfoldable pub list_all : World → List Manual
unfolding newest_first
list_all w = newest_first (values w.manuals)

-- `max(candidates, key=lambda manual: manual.version)`: the first of the largest
unfoldable pub latest : List Manual → Option Manual
latest [] = none
latest (m ∷ ms) = elim (latest ms) [
  | none ↦ some m
  | some n ↦ if ltb m.version n.version then some n else some m
]

unfoldable pub get_active_by_asset_model : World → String → Option Manual
unfolding latest
get_active_by_asset_model w asset_model =
    latest (keep (λ m. m.asset_model == asset_model && is_active m.status) (values w.manuals))

-- `max(versions) + 1`, or 1 if there are none
abbrev next_after : Option Manual → ℕ
next_after none = 1
next_after (some m) = m.version + 1

unfoldable pub next_version_for_asset_model : World → String → ℕ
unfolding latest
next_version_for_asset_model w asset_model =
    next_after (latest (keep (λ m. m.asset_model == asset_model) (values w.manuals)))

-- `save_batch`, for the chunks of one manual
unfoldable pub save_batch : List ManualChunk → Exec World (Unit {0})
save_batch [] w = (ok tt, w)
save_batch (c ∷ cs) w = (
  ok tt,
  record w { chunks = put w.chunks c.manual_id (get_or w.chunks c.manual_id [] ++ c ∷ cs) },
)

unfoldable pub delete_by_manual_id : String → Exec World (Unit {0})
delete_by_manual_id manual_id w = (ok tt, record w { chunks = pop w.chunks manual_id })

unfoldable pub count_by_manual_id : World → String → ℕ
count_by_manual_id w manual_id = length (get_or w.chunks manual_id [])
