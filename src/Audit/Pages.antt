-- ===== src/Audit/Pages.antt =====
-- Following the cursors of `list_entries` from page to page.
use superion.Prelude.{
  ℕ, zero, suc, ◌+◌, ◌<◌, ◌≤◌, String, ◌≡◌, ◌≢◌, ◌∙◌, sym, ap, refl, Bool, false, ◌&&◌, Option,
  none, some, List, [], ◌∷◌, ◌++◌, arith, nat_eq, string_eq, ◌==◌, ltb, length, take, drop,
  get_elem?, get_elem?-drop, get_elem?-take, length-take, length-drop, take-append-drop, drop-drop,
  drop-nil, take-all, Bool-cases, inl, inr, if◌then◌else◌,
}
use text.Mathlib.TextEquality.{eq_iff}
use mathlib.Core.List.{append-nil}
use superion.Audit.{
  AuditEntry, AuditLog, start_after, start_of, last_id, page_from, filtered, list_entries,
}

-- No two entries of the list have the same id.
pub record IsDistinct (items : List AuditEntry) : Type 0 where
  pub one :
      (j k : ℕ) (e f : AuditEntry)
      → get_elem? items j ≡ some e
      → get_elem? items k ≡ some f
      → e.id ≡ f.id
      → j ≡ k

-- The id of a found entry
abbrev id_at : Option AuditEntry → String
id_at none = ""
id_at (some e) = e.id

start_after-eq :
    (c : String) (n k : ℕ) (items : List AuditEntry) (e : AuditEntry)
    → get_elem? items k ≡ some e
    → e.id ≡ c
    → ((j : ℕ) (f : AuditEntry) → j < k → get_elem? items j ≡ some f → f.id ≢ c)
    → start_after c n items ≡ n + k + 1
unfolding start_after
start_after-eq c n k [] e h same first = cc
start_after-eq c n zero (x ∷ items) e h same first = ground (arith, eq_iff x.id c, ap id_at h)
start_after-eq c n (suc k) (x ∷ items) e h same first = ground (
  arith,
  eq_iff x.id c,
  first 0 x (omega arith) refl,
  start_after-eq c (n + 1) k items e h same (λ j f lt at_j. first (suc j) f (omega arith) at_j),
)

last_id-some :
    (m : ℕ) (page : List AuditEntry)
    → length page ≡ suc m
    → (e : AuditEntry) × (get_elem? page m ≡ some e) × (last_id page ≡ some e.id)
last_id-some m [] h = absurd (omega arith)
last_id-some zero (e ∷ []) h = (e, refl, refl)
last_id-some (suc m) (e ∷ []) h = absurd (omega arith)
last_id-some zero (e ∷ f ∷ page) h = absurd (omega arith)
last_id-some (suc m) (e ∷ f ∷ page) h = last_id-some m (f ∷ page) (omega arith)

module _ (items : List AuditEntry) (distinct : IsDistinct items) (m start : ℕ) where
  page_length : length (take (suc m) (drop start items)) ≤ suc m
  page_length = omega (arith, length-take (suc m) (drop start items))

  -- A cursor leads to the entry behind the page.
  next-start :
      length (take (suc m) (drop start items)) ≡ suc m
      → (c : String) × (last_id (take (suc m) (drop start items)) ≡ some c)
        × (start_after c 0 items ≡ start + suc m)
  next-start full =
      let (e, at, last) = last_id-some m (take (suc m) (drop start items)) full in
      let at_items : get_elem? items (start + m) ≡ some e =
        sym (get_elem?-drop items start m (start + m) refl)
        ∙ sym (get_elem?-take (drop start items) (suc m) m (omega arith))
        ∙ at in
      (
        e.id,
        last,
        start_after-eq e.id 0 (start + m) items e at_items refl (λ j f lt at_j same.
              absurd (omega (arith, distinct.one j (start + m) f e at_j at_items same)))
            ∙ omega arith,
      )

module _ (log : AuditLog) (actor action target : Option String) (limit : ℕ) where
  -- A client that asks for page after page, at most `fuel` of them
  pub entries_from : ℕ → Option String → List AuditEntry
  entries_from zero cursor = []
  entries_from (suc fuel) cursor =
      let (page, next) = list_entries log actor action target limit cursor in
      page ++ elim next [ none ↦ [] | some c ↦ entries_from fuel (some c) ]

module _ (log : AuditLog) (actor action target : Option String) (m : ℕ)
    (distinct : IsDistinct (filtered log actor action target)) where
  abbrev entries : List AuditEntry
  entries = filtered log actor action target

  abbrev page_at : ℕ → List AuditEntry
  page_at start = take (suc m) (drop start entries)

  abbrev next_at : ℕ → Option String
  next_at start =
      if length (page_at start) == suc m && ltb (start + suc m) (length entries)
      then last_id (page_at start)
      else none

  abbrev rest_of : ℕ → Option String → List AuditEntry
  rest_of fuel next = elim next [
    | none ↦ []
    | some c ↦ entries_from log actor action target (suc m) fuel (some c)
  ]

  turn :
      (fuel start : ℕ) (cursor : Option String)
      → start_of cursor entries ≡ start
      → entries_from log actor action target (suc m) (suc fuel) cursor
        ≡ page_at start ++ rest_of fuel (next_at start)
  unfolding entries_from list_entries page_from
  turn fuel start cursor at = ap (λ s. page_at s ++ rest_of fuel (next_at s)) at

  last_turn :
      (fuel start : ℕ)
      → (length (page_at start) == suc m && ltb (start + suc m) (length entries)) ≡ false
      → page_at start ++ rest_of fuel (next_at start) ≡ drop start entries
  last_turn fuel start done =
      ap (λ (b : Bool). page_at start ++ rest_of fuel (if b then last_id (page_at start) else none))
        done
      ∙ append-nil (page_at start)
      ∙ take-all (suc m) (drop start entries)
          (ground (arith, length-take (suc m) (drop start entries), length-drop start entries))

  follow :
      (fuel start : ℕ) (cursor : Option String)
      → start_of cursor entries ≡ start
      → length entries ≤ start + fuel
      → entries_from log actor action target (suc m) fuel cursor ≡ drop start entries
  unfolding entries_from
  follow zero start cursor at enough = sym (drop-nil start entries (omega arith))
  follow (suc fuel) start cursor at enough =
      turn fuel start cursor at
      ∙ elim (Bool-cases
          (length (page_at start) == suc m && ltb (start + suc m) (length entries))) [
            | inr done ↦ last_turn fuel start done
            | inl more ↦
                let (c, last, there) = next-start entries distinct m start (ground arith) in
                ap
                  (λ (b : Bool).
                    page_at start ++ rest_of fuel (if b then last_id (page_at start) else none))
                  more
                ∙ ap (λ o. page_at start ++ rest_of fuel o) last
                ∙ ap (λ r. page_at start ++ r)
                    (follow fuel (start + suc m) (some c) there (omega arith)
                      ∙ sym (drop-drop start (suc m) entries))
                ∙ take-append-drop (suc m) (drop start entries)
          ]

  -- With pages of one entry or more and entries of different ids, a client that follows the cursors
  -- from the first page gets every entry that the filters leave, once and in order, within as many
  -- requests as there are entries.
  pub entries_from-eq-filtered :
      (fuel : ℕ)
      → length (filtered log actor action target) ≤ fuel
      → entries_from log actor action target (suc m) fuel none ≡ filtered log actor action target
  entries_from-eq-filtered fuel enough = follow fuel 0 none refl (omega arith)
