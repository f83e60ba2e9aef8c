-- ===== src/Effect/Rules/Known.antt =====
-- The rules for a first action whose value is known.
use superion.Prelude.{◌≡◌, Option, some}
use superion.Effect.{Error, Result, ok, Exec, lift, gets, or_raise, ◌>>=◌}
use superion.Effect.Rules.{Ensures}

module _ {S A B : Type 0} {P : S → Type 0} {Q : B → S → Type 0} {E : S → Type 0} (a : A)
    (f : A → Exec S B) where
  pub Ensures-lift_then :
      (r : Result A) → r ≡ ok a → Ensures P (f a) Q E → Ensures P (lift r >>= f) Q E
  unfolding ◌>>=◌
  Ensures-lift_then r eq h = rw eq h

  pub Ensures-or_raise_then :
      (o : Option A) (e : Error)
      → o ≡ some a
      → Ensures P (f a) Q E
      → Ensures P (or_raise o e >>= f) Q E
  unfolding ◌>>=◌
  Ensures-or_raise_then o e eq h = rw eq h

  pub Ensures-gets_then :
      (g : S → A) → ((s : S) → P s → g s ≡ a) → Ensures P (f a) Q E → Ensures P (gets g >>= f) Q E
  unfolding ◌>>=◌
  Ensures-gets_then g eq h = record { at = λ s p. rw (eq s p) (h.at s p) }
