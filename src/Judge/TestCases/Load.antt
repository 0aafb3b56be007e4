-- ===== src/Judge/TestCases/Load.antt =====
-- `getTestCases` of src/judge/test-cases/test-cases.service.ts: the test cases of a problem, read
-- from the object store through the cache.
use judge_it.Prelude.{ℕ, ◌++◌, List, [], Option, none, some}
use judge_it.Prelude.Actions.{Action, ◌>>=◌, pure}
use judge_it.Prelude.Eq.{text_eq}
use judge_it.Prelude.Numbers.{show_nat}
use judge_it.Prelude.Text.{Text, text}
use judge_it.Execution.Types.{TestCase}
use judge_it.Judge.TestCases.{fetch_test_cases}
use judge_it.Storage.{Client, fetch_object_contents}

unfoldable pub prefix_of : ℕ → Text
prefix_of problem_id = text "problems/" ++ (show_nat problem_id ++ text "/testcases/")

unfoldable pub cache_key : ℕ → Text
cache_key problem_id = text "test-cases:" ++ show_nat problem_id

-- `testCases ?? []`.
abbrev pub or_no_tests : Option (List TestCase) → List TestCase
or_no_tests none = []
or_no_tests (some tests) = tests

-- `fetchTestCasesFromS3`, with the bucket of the configuration.
module _ {S E : Type 0} (client : Client S E) (bucket : Text) where
  unfoldable pub fetch_test_cases_from_s3 : ℕ → Action S E (List TestCase)
  fetch_test_cases_from_s3 problem_id = do
    files ← fetch_object_contents client bucket (prefix_of problem_id)
    pure (fetch_test_cases files)
