-- ===== src/Effect.antt =====
-- Python methods: they change a state and return or raise. What was written before a raise stays.
-- backend/src/domain/exceptions.py: a domain error keeps its class and its stable code; the message
-- for the reader and the details are left out.
pub mod Rules
use superion.Prelude.{String, Bool, Option, none, some, if◌then◌else◌}

-- the subclasses of `DomainError`
pub data ErrorClass : Type 0 where
  not_found validation forbidden unauthorized conflict unavailable rate_limited : ErrorClass

-- The others are Python's own exceptions `ValueError`, `RuntimeError`, `IndexError`, `TypeError` and
-- `KeyError`.
pub data Error : Type 0 where
  domain_error : ErrorClass → String → Error
  value_error runtime_error index_error type_error key_error : Error

pub data Result {ℓ} (A : Type ℓ) : Type ℓ where
  ok : A → Result A
  err : Error → Result A

-- A method of an object with state `S`.
abbrev pub Exec {ℓ κ} : Type ℓ → Type κ → Type (ℓ ⊔ κ)
Exec S A = S → Result A × S

module _ {ℓ κ} {S : Type ℓ} {A : Type κ} where
  unfoldable pub pure : A → Exec S A
  pure a s = (ok a, s)

  unfoldable pub raise : Error → Exec S A
  raise e s = (err e, s)

  unfoldable pub lift : Result A → Exec S A
  lift r s = (r, s)

  unfoldable pub gets : (S → A) → Exec S A
  gets f s = (ok (f s), s)

  -- `if x is None: raise e`
  unfoldable pub or_raise : Option A → Error → Exec S A
  unfolding pure raise
  or_raise none e = raise e
  or_raise (some a) e = pure a

unfoldable pub modify {ℓ} : {S : Type ℓ} → (S → S) → Exec S (Unit {0})
modify f s = (ok tt, f s)

-- `if b: raise e`
unfoldable pub raise_if {ℓ} : {S : Type ℓ} → Bool → Error → Exec S (Unit {0})
unfolding pure raise
raise_if b e = if b then raise e else pure tt

-- To unfold `◌>>=◌` is to unfold all of these.
infixl 5 ◌>>=◌ ◌>>◌
unfoldable pub ◌>>=◌ {ℓ κ μ} :
    {S : Type ℓ} {A : Type κ} {B : Type μ} → Exec S A → (A → Exec S B) → Exec S B
unfolding pure raise lift gets or_raise modify raise_if
◌>>=◌ m f s = let (r, t) = m s in elim r [ ok a ↦ f a t | err e ↦ raise e t ]

abbrev pub ◌>>◌ {ℓ κ} : {S : Type ℓ} {B : Type κ} → Exec S (Unit {0}) → Exec S B → Exec S B
m >> k = m >>= λ _. k
