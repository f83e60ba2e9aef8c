-- ===== src/Domain/Template.antt =====
-- backend/src/domain/entities/procedure_template.py and value_objects/step.py. Step indices are
-- natural numbers, so of the guards of `__post_init__` those on the sign hold by the type.
use superion.Prelude.{
  ℕ, suc, String, Bool, true, Option, List, [], ◌∷◌, nat_eq, ◌==◌, ◌&&◌, ltb, length, any,
  if◌then◌else◌,
}
use superion.Effect.{value_error, Result, ok, err}

pub record Step : Type 0 where
  pub index : ℕ
  pub title : String
  pub description : String
  pub estimated_minutes : ℕ
  pub critical : Bool
  pub requires_photo : Bool
  pub photo_criteria : Option String

pub record Template : Type 0 where
  pub id : String
  pub name : String
  pub version : String
  pub manual_id : String
  pub steps : List Step
  pub critical_step_indices : List ℕ
  pub photo_required_step_indices : List ℕ
  pub estimated_minutes : ℕ

-- `indices == list(range(len(steps)))`, from `n` on
indexed_from : ℕ → List Step → Bool
indexed_from n [] = true
indexed_from n (s ∷ steps) = s.index == n && indexed_from (suc n) steps

all_below : ℕ → List ℕ → Bool
all_below n [] = true
all_below n (i ∷ is) = ltb i n && all_below n is

-- `ProcedureTemplate.__post_init__`
unfoldable pub make_template : Template → Result Template
unfolding indexed_from all_below
make_template t = elim t.steps [
  | [] ↦ err value_error
  | _ ↦
      if indexed_from 0 t.steps
        && all_below (length t.steps) t.critical_step_indices
        && all_below (length t.steps) t.photo_required_step_indices
      then ok t
      else err value_error
]

-- `step_index in indices`
abbrev pub is_in : ℕ → List ℕ → Bool
is_in i is = any (λ j. j == i) is
