-- ===== src/Validation.antt =====
-- src/dto/submission.dto.ts and src/types/pagination.dto.ts with the decorators of their fields, and the pipe of
-- src/app.module.ts that checks bodies and queries by them. The pipe and the checks are a library,
-- which is a parameter.
pub mod Languages
pub mod Pages
use judge_it.Prelude.{ℕ, ◌≡◌, ◌≤◌, Bool, true, false, ◌||◌, List, [], ◌∷◌, Option, none, some, All}
use judge_it.Prelude.Eq.{text_beq, text_eq}
use judge_it.Prelude.Maps.{Map, get}
use judge_it.Prelude.Text.{Text, text}

-- The value of a field, as far as the checks tell values apart: a number is a natural one or not.
pub data Value : Type 0 where
  text_value : Text → Value
  texts : List Text → Value
  number : ℕ → Value
  other_number : Value
  boolean : Bool → Value
  object : Value

abbrev pub Body : Type 0
Body = Map Text Value

-- The decorators of class-validator and class-transformer that the fields have.
pub data Decorator : Type 0 where
  is_optional is_string is_number is_int type_number : Decorator
  min : ℕ → Decorator
  is_enum : List Text → Decorator

abbrev pub Rules : Type 0
Rules = Map Text (List Decorator)

-- The enum `Language`.
abbrev pub language_values : List Text
language_values = text "cpp" ∷ text "python" ∷ []

abbrev pub submission_rules : Rules
submission_rules =
    (text "problemId", type_number ∷ is_number ∷ [])
    ∷ (text "sourceCode", is_string ∷ [])
    ∷ (text "language", is_enum language_values ∷ [])
    ∷ []

abbrev pub pagination_rules : Rules
pagination_rules =
    (text "limit", is_optional ∷ type_number ∷ is_int ∷ min 1 ∷ [])
    ∷ (text "offset", is_optional ∷ type_number ∷ is_int ∷ min 0 ∷ [])
    ∷ []

-- The options of the pipe.
pub record PipeOptions : Type 0 where
  pub whitelist : Bool
  pub transform : Bool

abbrev pub options : PipeOptions
options = record { whitelist = true; transform = true }

-- The pipe: a body that it lets through, converted, and the checks that it makes.
pub record Pipe : Type 0 where
  pub passes : Decorator → Value → Bool
  pub run : PipeOptions → Rules → Body → Option Body

abbrev pub includes : List Text → Text → Bool
includes [] x = false
includes (y ∷ ys) x = text_beq y x || includes ys x

-- What the documentation of the library says of a body that was let through.
-- `is_optional` and `type_number` are no checks, and every value passes them.
pub record PipeLaws (pipe : Pipe) : Type 0 where
  pub checked :
      (o : PipeOptions) (rules : Rules) (body b : Body) (name : Text) (ds : List Decorator)
      (v : Value)
      → pipe.run o rules body ≡ some b
      → get name rules ≡ some ds
      → get name b ≡ some v
      → All (λ d. pipe.passes d v ≡ true) ds
  pub is_enum_lem :
      (values : List Text) (v : Value)
      → pipe.passes (is_enum values) v ≡ true
      → (t : Text) × (v ≡ text_value t) × (includes values t ≡ true)
  pub min_lem : (n k : ℕ) → pipe.passes (min n) (number k) ≡ true → n ≤ k
