-- ===== src/World/Stable.antt =====
-- Actions that keep a property of the state, whether they return or raise.
use superion.Prelude.{Bool, Option, if◌then◌else◌}
use superion.Effect.{
  Error, Result, Exec, pure, raise, lift, gets, or_raise, raise_if, modify, ◌>>=◌,
}
use superion.Effect.Rules.{
  Ensures, Ensures-bind, Ensures-pure, Ensures-raise, Ensures-lift, Ensures-gets, Ensures-or_raise,
  Ensures-if, Ensures-raise_if,
}
use superion.World.{World}

abbrev pub Stable : {A : Type 0} → (World → Type 0) → Exec World A → Type 0
Stable P m = Ensures P m (λ _. P) P

module _ {P : World → Type 0} where
  pub Stable-gets : {A : Type 0} (f : World → A) → Stable P (gets f)
  Stable-gets f = Ensures-gets f (λ w p. p)

  pub Stable-or_raise : {A : Type 0} (o : Option A) (e : Error) → Stable P (or_raise o e)
  Stable-or_raise o e = Ensures-or_raise o e (λ w a h p. p) (λ w p. p)

  pub Stable-raise_if : (b : Bool) (e : Error) → Stable P (raise_if b e)
  Stable-raise_if b e = Ensures-raise_if b e (λ w h p. p) (λ w p. p)

  pub Stable-raise : {A : Type 0} (e : Error) → Stable {A = A} P (raise e)
  Stable-raise e = Ensures-raise e (λ w p. p)

  pub Stable-lift : {A : Type 0} (r : Result A) → Stable P (lift r)
  Stable-lift r = Ensures-lift r (λ w a h p. p) (λ w p. p)

  pub Stable-bind :
      {A B : Type 0} (m : Exec World A) (f : A → Exec World B)
      → Stable P m
      → ((a : A) → Stable P (f a))
      → Stable P (m >>= f)
  Stable-bind m f = Ensures-bind (λ _. P) m f

  pub Stable-pure : {A : Type 0} (a : A) → Stable P (pure a)
  Stable-pure a = Ensures-pure a (λ w p. p)

  pub Stable-if :
      {A : Type 0} (b : Bool) (m n : Exec World A)
      → Stable P m
      → Stable P n
      → Stable P (if b then m else n)
  Stable-if b m n h k = Ensures-if b m n (λ _. h) (λ _. k)

-- A change of the state that keeps the property
pub Stable-modify :
    {P : World → Type 0} (f : World → World) → ((w : World) → P w → P (f w)) → Stable P (modify f)
unfolding ◌>>=◌
Stable-modify f h = record { at = h }

pub ruleset stable_rules = (
  Stable-gets, Stable-or_raise, Stable-raise_if, Stable-raise, Stable-lift, Stable-bind,
  Stable-pure, Stable-if,
)
