-- ===== src/Tests/Names.antt =====
-- Identifiers that do not come twice.
use Prim.Native.String.{◌∷◌ as ◌&◌}
use text.Mathlib.TextEquality.{eq_iff}
use superion.Prelude.{ℕ, zero, suc, String, ◌≡◌, ◌≢◌, ap, refl, arith}

abbrev pub names : ℕ → String
names zero = ""
names (suc n) = "v" & names n

pub names_differ : (m n : ℕ) → names m ≡ names n → m ≡ n
names_differ zero zero h = refl
names_differ zero (suc n) h = cc
names_differ (suc m) zero h = cc
names_differ (suc m) (suc n) h = ap suc (names_differ m n cc)

-- The first character
abbrev initial : String → String
initial (c & s) = c & ""
initial _ = ""

pub r1_other : (n : ℕ) → "r1" ≢ names n
r1_other zero h = ground (arith, eq_iff "r" "", ap initial h)
r1_other (suc n) h = ground (arith, eq_iff "r" "v", ap initial h)
