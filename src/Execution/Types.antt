-- ===== src/Execution/Types.antt =====
-- src/types/execution-types.ts, src/types/testCase.type.ts and src/types/language.config.ts.
use judge_it.Prelude.{
  ℕ, ◌*◌, Bool, true, false, List, [], ◌∷◌, Option, none, some, ◌||◌, if◌then◌else◌,
}
use judge_it.Prelude.Eq.{text_beq}
use judge_it.Prelude.Int.{ℤ}
use judge_it.Prelude.Numbers.{Decimal}
use judge_it.Prelude.Text.{Text, text}

-- What `executeBatch` runs under. Times are seconds, sizes are kilobytes.
pub record ExecutionConfig : Type 0 where
  pub time_limit : ℕ
  pub memory_limit : ℕ
  pub stack_limit : Option ℕ
  pub processes : Option ℕ

-- `Partial<ExecutionConfig>`.
pub record PartialConfig : Type 0 where
  pub time_limit : Option ℕ
  pub memory_limit : Option ℕ
  pub stack_limit : Option ℕ
  pub processes : Option ℕ

pub record IsolateMeta : Type 0 where
  pub status : Text
  pub time : Decimal
  pub wall_time : Decimal
  pub memory : ℤ
  pub exit_code : ℤ
  pub signal : ℤ
  pub message : Text

pub data Status : Type 0 where
  ok tle mle re ce se : Status

pub record ExecutionResult : Type 0 where
  pub test_case_name : Option Text
  pub success : Bool
  pub output : Option Text
  pub error : Option Text
  pub stderr : Option Text
  pub time : Option Decimal
  pub wall_time : Option Decimal
  pub memory : Option ℤ
  pub exit_code : Option ℤ
  pub signal : Option ℤ
  pub status : Status

pub record TestCase : Type 0 where
  pub name : Text
  pub input : Text
  pub output : Option Text

pub record CompileConfig : Type 0 where
  pub timeout : ℕ
  pub cmd : Text → List Text

pub record RunConfig : Type 0 where
  pub needs_compilation : Bool
  pub cmd : Text → List Text
  pub wall_time : ℕ → ℕ

pub record LanguageConfig : Type 0 where
  pub extension : Text
  pub compile : Option CompileConfig
  pub run : RunConfig

abbrev pub cpp_compile : CompileConfig
cpp_compile = record {
  timeout = 10;
  cmd = λ source_file.
      text "/usr/bin/g++"
      ∷ text "-std=c++17"
      ∷ text "-O2"
      ∷ text "-Wall"
      ∷ text "-Wextra"
      ∷ source_file
      ∷ text "-o"
      ∷ text "solution"
      ∷ text "-lm"
      ∷ [];
}

abbrev pub cpp : LanguageConfig
cpp = record {
  extension = text "cpp";
  compile = some cpp_compile;
  run = record {
    needs_compilation = true;
    cmd = λ _. text "./solution" ∷ [];
    wall_time = λ time_limit. time_limit * 2;
  };
}

abbrev pub python : LanguageConfig
python = record {
  extension = text "py";
  compile = none;
  run = record {
    needs_compilation = false;
    cmd = λ source_file. text "/usr/bin/python3" ∷ source_file ∷ [];
    wall_time = λ time_limit. time_limit * 3;
  };
}

-- The names that every object inherits, which `languages[language]` finds too. What they give has no
-- `extension`, `compile` or `run`.
abbrev inherited_names : List Text
inherited_names =
    text "constructor"
    ∷ text "toString"
    ∷ text "toLocaleString"
    ∷ text "valueOf"
    ∷ text "hasOwnProperty"
    ∷ text "isPrototypeOf"
    ∷ text "propertyIsEnumerable"
    ∷ text "__proto__"
    ∷ text "__defineGetter__"
    ∷ text "__defineSetter__"
    ∷ text "__lookupGetter__"
    ∷ text "__lookupSetter__"
    ∷ []

abbrev among : List Text → Text → Bool
among [] name = false
among (n ∷ ns) name = text_beq n name || among ns name

unfoldable pub is_inherited : Text → Bool
is_inherited name = among inherited_names name

-- `languages[language]`, for the names that the object has of its own.
unfoldable pub languages : Text → Option LanguageConfig
languages language =
    if text_beq language (text "cpp")
    then some cpp
    else (if text_beq language (text "python") then some python else none)
