-- ===== src/Manuals/Chunker/Coverage.antt =====
-- The chunks of a page: their size, and that no text is lost.
use superion.Prelude.{
  ℕ, zero, suc, ◌+◌, ◌-◌, ◌≤◌, ◌<◌, min, String, ◌≡◌, refl, Bool, true, false, not, some, List, [],
  ◌∷◌, ◌++◌, leb, ltb, any, take, drop, length, length-take, get_elem?, get_elem?-drop, All,
  All-append, arith, Bool-cases, ◌⊎◌, inl, inr, if◌then◌else◌, ap, ◌∙◌,
}
use superion.Manuals.Chunker.{
  PageText, TextChunk, Chunker, slice, has_text, chunks_from, chunk_page,
}
use Prim.Native.String.{◌++◌ as ◌<>◌}

get_elem?-lt : {A : Type 0} (xs : List A) (i : ℕ) (x : A) → get_elem? xs i ≡ some x → i < length xs
get_elem?-lt [] i x h = cc
get_elem?-lt (y ∷ xs) zero x h = omega arith
get_elem?-lt (y ∷ xs) (suc i) x h = omega (arith, get_elem?-lt xs i x h)

any-take :
    {A : Type 0} (f : A → Bool) (xs : List A) (n i : ℕ) (x : A)
    → get_elem? xs i ≡ some x
    → f x ≡ true
    → i < n
    → any f (take n xs) ≡ true
any-take f [] n i x h k l = cc
any-take f (y ∷ xs) zero i x h k l = absurd (omega arith)
any-take f (y ∷ xs) (suc n) zero x h k l = ground arith
any-take f (y ∷ xs) (suc n) (suc i) x h k l = ground (arith, any-take f xs n i x h k)

-- A chunk of the list holds the text from `start` to `stop`.
pub Holds : List ℕ → List TextChunk → Type 0
Holds content [] = ⊥
Holds content (c ∷ chunks) = (c.content ≡ content) ⊎ Holds content chunks

Holds-append :
    (content : List ℕ) (cs ds : List TextChunk) → Holds content ds → Holds content (cs ++ ds)
unfolding Holds
Holds-append content [] ds h = h
Holds-append content (c ∷ cs) ds h = inr (Holds-append content cs ds h)

Holds-append_left :
    (content : List ℕ) (cs ds : List TextChunk) → Holds content cs → Holds content (cs ++ ds)
unfolding Holds
Holds-append_left content [] ds h = absurd h
Holds-append_left content (c ∷ cs) ds (inl e) = inl e
Holds-append_left content (c ∷ cs) ds (inr h) = inr (Holds-append_left content cs ds h)

-- The character at `i` is in a chunk.
pub record IsCovered (text : List ℕ) (chunks : List TextChunk) (i : ℕ) : Type 0 where
  pub start : ℕ
  pub stop : ℕ
  pub after_start : start ≤ i
  pub before_stop : i < stop
  pub within : stop ≤ length text
  pub chunk : Holds (slice text start stop) chunks

module _ {text : List ℕ} {i : ℕ} where
  IsCovered-append :
      (cs : List TextChunk) {ds : List TextChunk}
      → IsCovered text ds i
      → IsCovered text (cs ++ ds) i
  IsCovered-append cs {ds} h = record {
    start = h.start;
    stop = h.stop;
    after_start = h.after_start;
    before_stop = h.before_stop;
    within = h.within;
    chunk = Holds-append (slice text h.start h.stop) cs ds h.chunk;
  }

  IsCovered-append_left :
      {cs : List TextChunk} (ds : List TextChunk)
      → IsCovered text cs i
      → IsCovered text (cs ++ ds) i
  IsCovered-append_left {cs} ds h = record {
    start = h.start;
    stop = h.stop;
    after_start = h.after_start;
    before_stop = h.before_stop;
    within = h.within;
    chunk = Holds-append_left (slice text h.start h.stop) cs ds h.chunk;
  }

module _ (is_space : ℕ → Bool) (str : ℕ → String) (c : Chunker) (p : PageText)
    (fits : c.overlap < c.chunk_size) where
  -- The chunk names its page, has a character that is not a space, and is not too long.
  pub record IsChunk (k : TextChunk) : Type 0 where
    pub page : k.page ≡ p.page
    pub filled : has_text is_space str k.content ≡ true
    pub short : length k.content ≤ c.chunk_size

  -- The chunks of the text from `start` on
  record Splits (start : ℕ) (chunks : List TextChunk) : Type 0 where
    well_formed : All IsChunk chunks
    covered :
        (i x : ℕ)
        → start ≤ i
        → get_elem? p.text i ≡ some x
        → is_space x ≡ false
        → IsCovered p.text chunks i

  -- What the turn at `start` adds
  abbrev first : ℕ → List TextChunk
  first start =
      let content = slice p.text start (min (start + c.chunk_size) (length p.text)) in
      if has_text is_space str content
      then record { page = p.page; section_path = "page_" <> str p.page; content = content } ∷ []
      else []

  slice-has_text :
      (start stop i x : ℕ)
      → start ≤ i
      → i < stop
      → get_elem? p.text i ≡ some x
      → is_space x ≡ false
      → has_text is_space str (slice p.text start stop) ≡ true
  slice-has_text start stop i x le lt h blank =
      any-take _ (drop start p.text) (stop - start) (i - start) x
        (get_elem?-drop p.text start (i - start) i (omega arith) ∙ h) (ap not blank) (omega arith)

  first-IsChunk : (start : ℕ) → All IsChunk (first start)
  first-IsChunk start =
      elim (Bool-cases
        (has_text is_space str (slice p.text start (min (start + c.chunk_size) (length p.text))))) [
          | inl full ↦ rw full (
            record {
              page = refl;
              filled = full;
              short = omega (
                arith,
                length-take (min (start + c.chunk_size) (length p.text) - start)
                    (drop start p.text),
              );
            },
            tt,
          )
          | inr blank ↦ rw blank tt
        ]

  first-IsCovered :
      (start i x : ℕ)
      → start ≤ i
      → i < min (start + c.chunk_size) (length p.text)
      → get_elem? p.text i ≡ some x
      → is_space x ≡ false
      → IsCovered p.text (first start) i
  unfolding Holds
  first-IsCovered start i x le lt h blank = record {
    start = start;
    stop = min (start + c.chunk_size) (length p.text);
    after_start = le;
    before_stop = lt;
    within = omega arith;
    chunk =
        rw (slice-has_text start (min (start + c.chunk_size) (length p.text)) i x le lt h blank)
          (inl refl);
  }

  -- The rest of the text behind a turn of the loop that is not the last one
  Splits-append :
      (start : ℕ) (rest : List TextChunk)
      → start + c.chunk_size < length p.text
      → Splits (min (start + c.chunk_size) (length p.text) - c.overlap) rest
      → Splits start (first start ++ rest)
  Splits-append start rest more h = record {
    well_formed = All-append IsChunk (first start) rest (first-IsChunk start) h.well_formed;
    covered = λ i x le at_i blank.
        elim (Bool-cases (ltb i (min (start + c.chunk_size) (length p.text)))) [
          | inl here ↦
              IsCovered-append_left rest (first-IsCovered start i x le (ground arith) at_i blank)
          | inr later ↦ IsCovered-append (first start) (h.covered i x (ground arith) at_i blank)
        ];
  }

  Splits-last : (start : ℕ) → length p.text ≤ start + c.chunk_size → Splits start (first start)
  Splits-last start last = record {
    well_formed = first-IsChunk start;
    covered = λ i x le at_i blank.
        first-IsCovered start i x le (omega (arith, get_elem?-lt p.text i x at_i)) at_i blank;
  }

  Splits-nil : (start : ℕ) → length p.text ≤ start → Splits start []
  Splits-nil start done = record {
    well_formed = tt;
    covered = λ i x le at_i blank. absurd (omega (arith, get_elem?-lt p.text i x at_i));
  }

  abbrev Result : ℕ → ℕ → Type 0
  Result fuel start =
      (chunks : List TextChunk) × (chunks_from is_space str c p fuel start ≡ some chunks)
      × Splits start chunks

  chunks_from-Splits : (fuel start : ℕ) → length p.text ≤ start + fuel → Result fuel start
  unfolding chunks_from
  chunks_from-Splits zero start enough = ([], ground arith, Splits-nil start (omega arith))
  chunks_from-Splits (suc fuel) start enough =
      let stop = min (start + c.chunk_size) (length p.text) in
      elim (Bool-cases (ltb start (length p.text))) [
        | inr done ↦ ([], rw done refl, Splits-nil start (ground arith))
        | inl more ↦ elim (Bool-cases (leb (length p.text) stop)) [
          | inl last ↦ (first start, rw (more, last) refl, Splits-last start (ground arith))
          | inr further ↦
              let (rest, eq, h) =
                chunks_from-Splits fuel (stop - c.overlap) (ground (arith, fits)) in
              (
                first start ++ rest,
                rw (more, further, eq) refl,
                Splits-append start rest (ground arith) h,
              )
        ]
      ]

  -- A chunker whose overlap is smaller than its chunk size splits every page: the loop ends, each
  -- chunk names the page, is not blank and is at most `chunk_size` long, and every character that
  -- is not a space is in a chunk.
  pub chunk_page_lem :
      (chunks : List TextChunk) × (chunk_page is_space str c p ≡ some chunks)
      × All IsChunk chunks
      × ((i x : ℕ) → get_elem? p.text i ≡ some x → is_space x ≡ false → IsCovered p.text chunks i)
  unfolding chunk_page
  chunk_page_lem =
      let (chunks, eq, h) = chunks_from-Splits (length p.text) 0 (omega arith) in
      (chunks, eq, h.well_formed, λ i x. h.covered i x (omega arith))
