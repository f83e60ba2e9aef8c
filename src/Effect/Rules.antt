-- ===== src/Effect/Rules.antt =====
-- What an action does to the state, by how it ends: one rule for each way to build an action.
pub mod Known
use superion.Prelude.{◌≡◌, refl, arith, Bool, true, false, Option, none, some, if◌then◌else◌}
use superion.Effect.{
  Error, Result, ok, err, Exec, pure, raise, lift, gets, or_raise, ◌>>=◌, ◌>>◌, raise_if,
}

-- From every state the action ends in a state that `R` relates to the first, also when it raises.
pub record Ends {S A : Type 0} (R : S → S → Type 0) (m : Exec S A) : Type 0 where
  pub at : (s : S) → R s (m s).1

-- `Q` of the value and the state if the call returned, `E` of the state if it raised.
abbrev pub Outcome : {S A : Type 0} → (A → S → Type 0) → (S → Type 0) → Result A → S → Type 0
Outcome Q E (ok a) s = Q a s
Outcome Q E (err e) s = E s

-- If `P` holds before the action, its outcome holds behind it.
pub record Ensures {S A : Type 0} (P : S → Type 0) (m : Exec S A) (Q : A → S → Type 0)
    (E : S → Type 0) : Type 0 where
  pub at : (s : S) → P s → Outcome Q E (m s).0 (m s).1

module _ {S A : Type 0} {P : S → Type 0} {Q : A → S → Type 0} {E : S → Type 0} where
  pub Ensures-pure : (a : A) → ((s : S) → P s → Q a s) → Ensures P (pure a) Q E
  unfolding ◌>>=◌
  Ensures-pure a h = record { at = λ s p. h s p }

  pub Ensures-raise : (e : Error) → ((s : S) → P s → E s) → Ensures P (raise e) Q E
  unfolding ◌>>=◌
  Ensures-raise e h = record { at = λ s p. h s p }

  pub Ensures-gets : (f : S → A) → ((s : S) → P s → Q (f s) s) → Ensures P (gets f) Q E
  unfolding ◌>>=◌
  Ensures-gets f h = record { at = λ s p. h s p }

  pub Ensures-lift :
      (r : Result A)
      → ((s : S) (a : A) → r ≡ ok a → P s → Q a s)
      → ((s : S) → P s → E s)
      → Ensures P (lift r) Q E
  unfolding ◌>>=◌
  Ensures-lift (ok a) h k = record { at = λ s p. h s a refl p }
  Ensures-lift (err e) h k = record { at = λ s p. k s p }

  pub Ensures-or_raise :
      (o : Option A) (e : Error)
      → ((s : S) (a : A) → o ≡ some a → P s → Q a s)
      → ((s : S) → P s → E s)
      → Ensures P (or_raise o e) Q E
  unfolding ◌>>=◌
  Ensures-or_raise none e h k = record { at = λ s p. k s p }
  Ensures-or_raise (some a) e h k = record { at = λ s p. h s a refl p }

  -- Where there is a value, nothing is raised.
  pub Ensures-or_raise_some :
      (o : Option A) (e : Error) (a : A)
      → o ≡ some a
      → ((s : S) → P s → Q a s)
      → Ensures P (or_raise o e) Q E
  unfolding ◌>>=◌
  Ensures-or_raise_some none e a eq h = cc
  Ensures-or_raise_some (some b) e a eq h = record { at = λ s p. ground (arith, h s p) }

  pub Ensures-if :
      (b : Bool) (m n : Exec S A)
      → (b ≡ true → Ensures P m Q E)
      → (b ≡ false → Ensures P n Q E)
      → Ensures P (if b then m else n) Q E
  Ensures-if true m n h k = h refl
  Ensures-if false m n h k = k refl

module _ {S : Type 0} {P : S → Type 0} {Q : Unit {0} → S → Type 0} {E : S → Type 0} where
  pub Ensures-raise_if :
      (b : Bool) (e : Error)
      → ((s : S) → b ≡ false → P s → Q tt s)
      → ((s : S) → P s → E s)
      → Ensures P (raise_if b e) Q E
  unfolding ◌>>=◌
  Ensures-raise_if true e h k = record { at = λ s p. k s p }
  Ensures-raise_if false e h k = record { at = λ s p. h s refl p }

module _ {S A : Type 0} where
  Outcome-weaken :
      {Q R : A → S → Type 0} {E F : S → Type 0} (r : Result A) (s : S)
      → ((a : A) (t : S) → Q a t → R a t)
      → ((t : S) → E t → F t)
      → Outcome Q E r s
      → Outcome R F r s
  Outcome-weaken (ok a) s h k o = h a s o
  Outcome-weaken (err e) s h k o = k s o

  pub Ensures-weaken :
      {m : Exec S A} {P : S → Type 0} {Q R : A → S → Type 0} {E F : S → Type 0}
      → ((a : A) (t : S) → Q a t → R a t)
      → ((t : S) → E t → F t)
      → Ensures P m Q E
      → Ensures P m R F
  Ensures-weaken {m} h k o = record { at = λ s p. Outcome-weaken (m s).0 (m s).1 h k (o.at s p) }

  pub Ensures-strengthen :
      {m : Exec S A} {P R : S → Type 0} {Q : A → S → Type 0} {E : S → Type 0}
      → ((t : S) → R t → P t)
      → Ensures P m Q E
      → Ensures R m Q E
  Ensures-strengthen h o = record { at = λ s p. o.at s (h s p) }

  -- A fact that is not about the state may be used in the proof of the rest.
  pub Ensures-given :
      {m : Exec S A} {P : S → Type 0} {X : Type 0} {Q : A → S → Type 0} {E : S → Type 0}
      → (X → Ensures P m Q E)
      → Ensures (λ s. P s × X) m Q E
  Ensures-given h = record { at = λ s p. (h p.1).at s p.0 }

module _ {S A B : Type 0} {Q : B → S → Type 0} {E : S → Type 0} where
  Outcome-bind :
      (M : A → S → Type 0) (f : A → Exec S B) (r : Result A) (t : S)
      → Outcome M E r t
      → ((a : A) → Ensures (M a) (f a) Q E)
      → Outcome Q E ((lift r >>= f) t).0 ((lift r >>= f) t).1
  unfolding ◌>>=◌
  Outcome-bind M f (ok a) t h k = (k a).at t h
  Outcome-bind M f (err e) t h k = h

  pub Ensures-bind :
      {P : S → Type 0} (M : A → S → Type 0) (m : Exec S A) (f : A → Exec S B)
      → Ensures P m M E
      → ((a : A) → Ensures (M a) (f a) Q E)
      → Ensures P (m >>= f) Q E
  unfolding ◌>>=◌
  Ensures-bind M m f h k = record { at = λ s p. Outcome-bind M f (m s).0 (m s).1 (h.at s p) k }

-- `m; return a`
module _ {S A : Type 0} (m : Exec S (Unit {0})) (a : A) (s : S) where
  pub state-then-pure : ((m >> pure a) s).1 ≡ (m s).1
  unfolding ◌>>=◌
  state-then-pure = ground arith

  pub then-pure-eq-ok : {b : A} → ((m >> pure a) s).0 ≡ ok b → b ≡ a
  unfolding ◌>>=◌
  then-pure-eq-ok h = ground arith

-- An action that cannot raise returns.
pub returns_of_Outcome :
    {S A : Type 0} (Q : A → S → Type 0) (r : Result A) (s : S)
    → Outcome Q (λ _. ⊥) r s
    → (a : A) × (r ≡ ok a) × Q a s
returns_of_Outcome Q (ok a) s q = (a, refl, q)
returns_of_Outcome Q (err e) s q = absurd q

-- A property of the state alone, at the outcome of a call
module _ {S A : Type 0} (P : S → Type 0) where
  pub Outcome-of_state : (r : Result A) (s : S) → P s → Outcome (λ _. P) P r s
  Outcome-of_state (ok a) s h = h
  Outcome-of_state (err e) s h = h

  pub state_of_outcome : (r : Result A) (s : S) → Outcome (λ _. P) P r s → P s
  state_of_outcome (ok a) s h = h
  state_of_outcome (err e) s h = h

-- What is known of a call that returned.
pub ok_of_outcome :
    {S A : Type 0} (Q : A → S → Type 0) (E : S → Type 0) (a : A) (r : Result A) (s : S)
    → Outcome Q E r s
    → r ≡ ok a
    → Q a s
ok_of_outcome Q E a (ok b) s h e = ground (arith, h)
ok_of_outcome Q E a (err x) s h e = cc
