-- ===== src/Judge/TestCases.antt =====
-- src/judge/test-cases/test-cases.service.ts: the test cases of a problem, from the files that the
-- object store holds for it (`fetchTestCasesFromS3`, after the download), and the filter of
-- src/storage/storage.service.ts on the names of those files.
pub mod Files
pub mod Load
pub mod Cached
use mathlib.Core.List.{reverse}
use judge_it.Prelude.{
  Bool, true, false, not, List, [], ◌∷◌, ◌++◌, Option, none, some, length, drop, if◌then◌else◌,
}
use judge_it.Prelude.Eq.{text_eq}
use judge_it.Prelude.Maps.{Map, get, put, has}
use judge_it.Prelude.Text.{Text, text, starts_with}
use judge_it.Execution.Types.{TestCase}

unfoldable pub ends_with : Text → Text → Bool
ends_with suffix s = starts_with (reverse suffix) (reverse s)

-- `keys.filter((key) => !key.endsWith('/'))`.
unfoldable pub file_keys : List Text → List Text
file_keys [] = []
file_keys (key ∷ keys) =
    let rest = file_keys keys in if ends_with (text "/") key then rest else key ∷ rest

-- `key.split('/').pop()`: what stands behind the last slash.
unfoldable pub file_name : Text → Text
file_name [] = []
file_name (c ∷ s) = let rest = file_name s in if has b'/' (c ∷ s) then rest else c ∷ s

abbrev pub cut : Text → Text → Text
cut suffix s = reverse (drop (length suffix) (reverse s))

-- `fileName.replace(/\.(in|out)\.txt$/, '')`.
unfoldable pub base_name : Text → Text
base_name s =
    if ends_with (text ".in.txt") s
    then cut (text ".in.txt") s
    else (if ends_with (text ".out.txt") s then cut (text ".out.txt") s else s)

-- `Partial<TestCase>`, with the name that each one is given.
pub record Entry : Type 0 where
  pub name : Text
  pub input : Option Text
  pub output : Option Text

abbrev pub or_named : Text → Option Entry → Entry
or_named name none = record { name = name; input = none; output = none }
or_named name (some e) = e

abbrev pub with_input : Text → Text → Entry → Entry
with_input file content e =
    if ends_with (text ".in.txt") file then record e { input = some content } else e

abbrev pub with_output : Text → Text → Entry → Entry
with_output file content e =
    if ends_with (text ".out.txt") file then record e { output = some content } else e

-- What the loop does with a file of which the name, behind its last slash, is known.
unfoldable pub add_named : Map Text Entry → Text → Text → Map Text Entry
add_named grouped file content =
    put (base_name file)
      (with_output file content
        (with_input file content (or_named (base_name file) (get (base_name file) grouped))))
      grouped

unfoldable pub group : Map Text Entry → List (Text × Text) → Map Text Entry
group grouped [] = grouped
group grouped ((key, content) ∷ files) = group (add_named grouped (file_name key) content) files

-- The entries that have an input.
abbrev pub cons_complete : Entry → Option Text → List TestCase → List TestCase
cons_complete e none tests = tests
cons_complete e (some input) tests =
    record { name = e.name; input = input; output = e.output } ∷ tests

unfoldable pub complete_entries : Map Text Entry → List TestCase
complete_entries [] = []
complete_entries ((key, e) ∷ grouped) = cons_complete e e.input (complete_entries grouped)

unfoldable pub fetch_test_cases : List (Text × Text) → List TestCase
fetch_test_cases files = complete_entries (group [] files)
