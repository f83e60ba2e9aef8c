-- ===== src/Security/RateLimiter/Window.antt =====
-- How many requests of a user the limiter lets through in a window.
use mathlib.Core.Path.{subst}
use text.Mathlib.TextEquality.{eq_iff}
use superion.Prelude.{
  ℕ, ◌+◌, ◌≤◌, String, ◌≡◌, refl, false, ◌&&◌, List, [], ◌∷◌, ◌++◌, arith, beq_refl, string_eq,
  ◌==◌, leb, length, Bool-cases, inl, inr, if◌then◌else◌, sym,
}
use superion.Effect.{ok, err}
use superion.Dict.{get_or, get, put, get-put}
use superion.Security.RateLimiter.{Requests, check, drop_expired}

-- The number of times from `from` on
count_from : ℕ → List ℕ → ℕ
count_from from [] = 0
count_from from (t ∷ ts) = let rest = count_from from ts in if leb from t then rest + 1 else rest

-- The number of times from `from` to `from + window`
abbrev pub count_in : ℕ → ℕ → List ℕ → ℕ
count_in from window [] = 0
count_in from window (t ∷ ts) =
    let rest = count_in from window ts in
    if leb from t && leb t (from + window) then rest + 1 else rest

-- The times at which the requests of `user` pass, the last one first
unfoldable pub passed : ℕ → ℕ → String → List (String × ℕ) → Requests → List ℕ → List ℕ
passed limit window user [] st times = times
passed limit window user ((id, now) ∷ calls) st times =
    let (r, st') = check limit window id now st in
    passed limit window user calls st'
      (elim r [ ok _ ↦ (if id == user then now ∷ times else times) | err _ ↦ times ])

-- The times of the calls never decrease, from `last` on.
abbrev pub Ascending : ℕ → List (String × ℕ) → Type 0
Ascending last [] = Unit
Ascending last ((id, now) ∷ calls) = (last ≤ now) × Ascending now calls

count_in-le-count_from :
    (from window : ℕ) (ts : List ℕ) → count_in from window ts ≤ count_from from ts
unfolding count_from
count_in-le-count_from from window [] = omega arith
count_in-le-count_from from window (t ∷ ts) = ground (arith, count_in-le-count_from from window ts)

count_from-le-length : (from : ℕ) (ts : List ℕ) → count_from from ts ≤ length ts
unfolding count_from
count_from-le-length from [] = omega arith
count_from-le-length from (t ∷ ts) = ground (arith, count_from-le-length from ts)

count_from-append :
    (from now : ℕ) (ts : List ℕ)
    → count_from from (ts ++ now ∷ [])
      ≡ (if leb from now then count_from from ts + 1 else count_from from ts)
unfolding count_from
count_from-append from now [] = ground arith
count_from-append from now (t ∷ ts) = ground (arith, count_from-append from now ts)

-- Only times before the window are dropped.
count_from-drop_expired :
    (from window now : ℕ) (ts : List ℕ)
    → now ≤ from + window
    → count_from from (drop_expired window now ts) ≡ count_from from ts
unfolding count_from drop_expired
count_from-drop_expired from window now [] h = refl
count_from-drop_expired from window now (t ∷ ts) h =
    ground (arith, count_from-drop_expired from window now ts h)

length-drop_expired :
    (window now : ℕ) (ts : List ℕ) → length (drop_expired window now ts) ≤ length ts
unfolding drop_expired
length-drop_expired window now [] = omega arith
length-drop_expired window now (t ∷ ts) = ground (arith, length-drop_expired window now ts)

-- What holds between the times that passed and the stored ones, at the time `last`
record IsWithin (limit window last : ℕ) (times stored : List ℕ) : Type 0 where
  in_window : (from : ℕ) → count_in from window times ≤ limit
  remembered : (from : ℕ) → last ≤ from + window → count_from from times ≤ count_from from stored

module _ (limit window last now : ℕ) (times stored : List ℕ)
    (h : IsWithin limit window last times stored) (later : last ≤ now) where
  remembered_pruned :
      (from : ℕ)
      → now ≤ from + window
      → count_from from times ≤ count_from from (drop_expired window now stored)
  remembered_pruned from near =
      ground (arith, h.remembered from, count_from-drop_expired from window now stored near)

  refused-IsWithin : IsWithin limit window now times (drop_expired window now stored)
  refused-IsWithin = record { in_window = h.in_window; remembered = remembered_pruned }

  passed-IsWithin :
      leb limit (length (drop_expired window now stored)) ≡ false
      → IsWithin limit window now (now ∷ times) (drop_expired window now stored ++ now ∷ [])
  unfolding count_from
  passed-IsWithin room = record {
    in_window = λ from. ground (
      arith,
      h.in_window from,
      remembered_pruned from,
      count_in-le-count_from from window times,
      count_from-le-length from (drop_expired window now stored),
    );
    remembered = λ from near. ground (
      arith,
      remembered_pruned from near,
      count_from-append from now (drop_expired window now stored),
    );
  }

module _ (limit window : ℕ) (user : String) where
  -- What holds behind a call for `id`
  abbrev WithinAfter : String → ℕ → Requests → List ℕ → Type 0
  WithinAfter id now st times =
      let (r, v) = check limit window id now st in
      IsWithin limit window now
        (elim r [ ok _ ↦ (if id == user then now ∷ times else times) | err _ ↦ times ])
        (get_or v user [])

  module _ (last now : ℕ) (st : Requests) (times : List ℕ) (later : last ≤ now)
      (h : IsWithin limit window last times (get_or st user [])) where
    own-IsWithin : WithinAfter user now st times
    unfolding check
    own-IsWithin =
        elim (Bool-cases (leb limit (length (drop_expired window now (get_or st user []))))) [
          | inl full ↦ rw full (
              subst (IsWithin limit window now times)
                (stored (drop_expired window now (get_or st user [])))
                (refused-IsWithin limit window last now times (get_or st user []) h later))
          | inr room ↦
              rw (room, beq_refl user)
                (subst (IsWithin limit window now (now ∷ times))
                  (stored (drop_expired window now (get_or st user []) ++ now ∷ []))
                  (passed-IsWithin limit window last now times (get_or st user []) h later room))
        ]
      where
        stored : (ts : List ℕ) → ts ≡ get_or (put st user ts) user []
        stored ts = ground (arith, get-put st user user ts, beq_refl user)

    other-IsWithin : (id : String) → (id == user) ≡ false → WithinAfter id now st times
    unfolding check
    other-IsWithin id other =
        elim (Bool-cases (leb limit (length (drop_expired window now (get_or st id []))))) [
          | inl full ↦ rw full (kept (drop_expired window now (get_or st id [])))
          | inr room ↦
              rw (room, other) (kept (drop_expired window now (get_or st id []) ++ now ∷ []))
        ]
      where
        stored : (ts : List ℕ) → get_or st user [] ≡ get_or (put st id ts) user []
        stored ts = ground (arith, get-put st id user ts)

        kept : (ts : List ℕ) → IsWithin limit window now times (get_or (put st id ts) user [])
        kept ts = subst (IsWithin limit window now times) (stored ts) (record {
          in_window = h.in_window;
          remembered = λ from near. h.remembered from (omega arith);
        })

    -- One call, of the user or of another one
    check-IsWithin : (id : String) → WithinAfter id now st times
    check-IsWithin id = elim (Bool-cases (id == user)) [
      | inl same ↦
          subst (λ k. WithinAfter k now st times) (sym ((eq_iff id user).0 same)) own-IsWithin
      | inr other ↦ other-IsWithin id other
    ]

  passed-le_limit :
      (calls : List (String × ℕ)) (last : ℕ) (st : Requests) (times : List ℕ)
      → Ascending last calls
      → IsWithin limit window last times (get_or st user [])
      → (from : ℕ) → count_in from window (passed limit window user calls st times) ≤ limit
  unfolding passed
  passed-le_limit [] last st times h k from = k.in_window from
  passed-le_limit ((id, now) ∷ calls) last st times h k from =
      passed-le_limit calls now (check limit window id now st).1 _ h.1
        (check-IsWithin last now st times h.0 k id) from

  -- Whatever calls arrive, of this user and of others, if the clock does not go back, the limiter
  -- lets at most `limit` requests of the user pass in any window, not only in the current one.
  pub requests_within_limit :
      (calls : List (String × ℕ)) (from : ℕ)
      → Ascending 0 calls
      → count_in from window (passed limit window user calls [] []) ≤ limit
  unfolding get
  requests_within_limit calls from h =
      passed-le_limit calls 0 [] [] h
        (record { in_window = λ _. omega arith; remembered = λ _ _. omega arith }) from
