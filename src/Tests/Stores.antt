-- ===== src/Tests/Stores.antt =====
-- The theorems on the event log and on the splitting of manuals, at small inputs.
use superion.Prelude.{
  ℕ, ◌+◌, String, ◌≡◌, ◌≢◌, Bool, false, some, List, [], ◌∷◌, ◌++◌, arith, string_eq, nat_eq, ◌==◌,
  get_elem?, All,
}
use superion.Effect.{ok, err, value_error}
use superion.Events.Store
use superion.Events.Store.{EventStore, append, events_of, next_seq, list_since, get_by_event_id}
use superion.Events.Store.Invariant.{IsLog, empty-IsLog, append-IsLog, append-next_seq}
use superion.Events.Store.Pages.{list_since_pages}
use superion.Manuals.Chunker.{PageText, TextChunk, Chunker, chunk_page}
use superion.Manuals.Chunker.Coverage.{IsChunk, IsCovered, chunk_page_lem}
use superion.Tests.Fixtures.{event_at}

append-IsLog_example : IsLog (append (event_at 2) (append (event_at 1) Store.empty).1).1
append-IsLog_example = append-IsLog (event_at 2) (append (event_at 1) Store.empty).1 first-IsLog
  where
    first-IsLog : IsLog (append (event_at 1) Store.empty).1
    first-IsLog = append-IsLog (event_at 1) Store.empty empty-IsLog

append-next_seq_example :
    let v = append (event_at 1) Store.empty in
    (1 ≡ next_seq Store.empty "s1"
      → (v.0 ≡ ok (event_at 1))
        × (events_of v.1 "s1" ≡ events_of Store.empty "s1" ++ event_at 1 ∷ [])
        × ((sid : String) → "s1" ≢ sid → events_of v.1 sid ≡ events_of Store.empty sid)
        × (next_seq v.1 "s1" ≡ next_seq Store.empty "s1" + 1)
        × (get_by_event_id v.1 "s1" "e1" ≡ some (event_at 1)))
    × (1 ≢ next_seq Store.empty "s1" → v ≡ (err value_error, Store.empty))
append-next_seq_example = append-next_seq (event_at 1) Store.empty

list_since_pages_example :
    let st = (append (event_at 1) Store.empty).1 in
    list_since st "s1" 0 1 ++ list_since st "s1" (0 + 1) 5 ≡ list_since st "s1" 0 (1 + 5)
list_since_pages_example =
    list_since_pages (append (event_at 1) Store.empty).1 "s1" 0 1 5
      (append-IsLog (event_at 1) Store.empty empty-IsLog)

-- Chunks of four characters, of which the last is the first of the next one
abbrev small : Chunker
small = record { chunk_size = 4; overlap = 1 }

-- The code points of "ab cdef"
abbrev page : PageText
page = record { page = 3; text = 97 ∷ 98 ∷ 32 ∷ 99 ∷ 100 ∷ 101 ∷ 102 ∷ [] }

abbrev is_blank : ℕ → Bool
is_blank c = c == 32

abbrev digits : ℕ → String
digits n = "3"

chunk_page_lem_example :
    (chunks : List TextChunk) × (chunk_page is_blank digits small page ≡ some chunks)
    × All (IsChunk is_blank digits small page (omega arith)) chunks
    × ((i x : ℕ)
        → get_elem? page.text i ≡ some x
        → is_blank x ≡ false
        → IsCovered page.text chunks i)
chunk_page_lem_example = chunk_page_lem is_blank digits small page (omega arith)
