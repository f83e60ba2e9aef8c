-- ===== src/Manuals/Chunker.antt =====
-- backend/src/infrastructure/services/chunker.py. A text is the list of its code points. `is_space`
-- is Python's test for the characters that `strip` removes, `str` prints a number.
pub mod Coverage
use superion.Prelude.{
  ℕ, zero, suc, ◌+◌, ◌-◌, min, String, Bool, true, false, not, Option, none, some, List, [], ◌∷◌,
  ◌++◌, leb, ltb, any, take, drop, length, ◌||◌, ◌&&◌, nat_eq, ◌==◌, if◌then◌else◌,
}
use superion.Effect.{value_error, Result, ok, err}
use Prim.Native.String.{◌++◌ as ◌<>◌}

-- `PageText`
pub record PageText : Type 0 where
  pub page : ℕ
  pub text : List ℕ

pub record TextChunk : Type 0 where
  pub page : ℕ
  pub section_path : String
  pub content : List ℕ

-- `HierarchicalChunker`: the fields of an instance
pub record Chunker : Type 0 where
  pub chunk_size : ℕ
  pub overlap : ℕ

-- `__init__`, for arguments that are not negative
unfoldable pub make_chunker : ℕ → ℕ → Result Chunker
make_chunker chunk_size overlap =
    if chunk_size == 0
    then err value_error
    else if leb chunk_size overlap
    then err value_error
    else ok (record { chunk_size = chunk_size; overlap = overlap })

-- `text[start:end]`
abbrev pub slice : List ℕ → ℕ → ℕ → List ℕ
slice text start stop = take (stop - start) (drop start text)

module _ (is_space : ℕ → Bool) (str : ℕ → String) where
  -- `content.strip()` is not empty.
  abbrev pub has_text : List ℕ → Bool
  has_text content = any (λ c. not (is_space c)) content

  -- The `while` loop; no result if the fuel runs out
  pub chunks_from : Chunker → PageText → ℕ → ℕ → Option (List TextChunk)
  chunks_from c p zero start = if ltb start (length p.text) then none else some []
  chunks_from c p (suc fuel) start =
      let stop = min (start + c.chunk_size) (length p.text) in
      let rest = chunks_from c p fuel (stop - c.overlap) in
      let content = slice p.text start stop in
      let first =
        (if has_text content
          then record { page = p.page; section_path = "page_" <> str p.page; content = content }
            ∷ []
          else []) in
      if ltb start (length p.text)
      then (if leb (length p.text) stop
          then some first
          else elim rest [ none ↦ none | some chunks ↦ some (first ++ chunks) ])
      else some []

  -- The body of `for page in pages`, with a turn of the loop for each character
  unfoldable pub chunk_page : Chunker → PageText → Option (List TextChunk)
  chunk_page c p = chunks_from c p (length p.text) 0

  unfoldable pub chunk_pages : Chunker → List PageText → Option (List TextChunk)
  unfolding chunk_page
  chunk_pages c [] = some []
  chunk_pages c (p ∷ pages) =
      let rest = chunk_pages c pages in
      elim (chunk_page c p) [
        | none ↦ none
        | some chunks ↦ elim rest [ none ↦ none | some more ↦ some (chunks ++ more) ]
      ]
