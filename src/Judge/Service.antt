-- ===== src/Judge/Service.antt =====
-- `judgeSubmission` of src/judge/judge.service.ts, over the services that it calls. The two loads
-- that it starts together (`Promise.all`) are run one after the other. The log lines and the metric
-- of the latency are left out.
pub mod Outcome
pub mod Executor
pub mod Stores
pub mod Sandboxed
use judge_it.Prelude.{ℕ, ◌≡◌, ◌*◌, List, some, map, length}
use judge_it.Prelude.Actions.{Action, ◌>>=◌, ◌>>◌, pure, lift}
use judge_it.Prelude.Results.{done}
use judge_it.Prelude.Text.{Text}
use judge_it.Execution.Types.{ExecutionResult, PartialConfig, TestCase}
use judge_it.Judge.Verdict.{Error, SubmissionResult, Report, report, verdict_text}

-- src/types/submission-queue.type.ts, the fields that are used, and src/types/problem-details.type.ts.
pub record SubmissionQueuedEvent : Type 0 where
  pub submission_id : ℕ
  pub problem_id : ℕ
  pub language : Text
  pub code : Text

pub record ProblemDetails : Type 0 where
  pub memory_limit : ℕ
  pub time_limit : ℕ

-- The methods of the services that the judge is built from.
pub record Services (S : Type 0) : Type 0 where
  pub get_test_cases : ℕ → Action S Error (List TestCase)
  pub get_problem_details : ℕ → Action S Error ProblemDetails
  pub execute_batch :
      ℕ → Text → Text → List TestCase → PartialConfig → Action S Error (List ExecutionResult)
  -- The memory is in hundredths of a megabyte.
  pub update_submission : ℕ → Text → ℕ → ℕ → Action S Error (Unit {0})
  pub add_submission_results : List SubmissionResult → Action S Error (Unit {0})

-- What the judge relies on: a batch gives a result for each test case.
abbrev pub EachTest : {S : Type 0} → Services S → Type 0
EachTest {S} services =
    (box_id : ℕ) (code language : Text) (tests : List TestCase) (config : PartialConfig) (s t : S)
    (results : List ExecutionResult)
    → services.execute_batch box_id code language tests config s ≡ (done results, t)
    → length results ≡ length tests

abbrev pub config_of : ProblemDetails → PartialConfig
config_of details = record {
  time_limit = some details.time_limit;
  memory_limit = some (details.memory_limit * 1000);
  stack_limit = some (details.memory_limit * 1000);
  processes = some 1;
}

module _ {S : Type 0} (services : Services S) where
  unfoldable pub store : ℕ → Report → Action S Error (List Text)
  store submission_id r = do
    services.update_submission submission_id (verdict_text r.final) r.figures.execution_time
        r.figures.memory_used
    services.add_submission_results r.figures.rows
    pure (map verdict_text r.verdicts)

  unfoldable pub judge_submission : SubmissionQueuedEvent → ℕ → Action S Error (List Text)
  judge_submission event box_id = do
    tests ← services.get_test_cases event.problem_id
    details ← services.get_problem_details event.problem_id
    results ← services.execute_batch box_id event.code event.language tests (config_of details)
    r ← lift (report event.submission_id results tests)
    store event.submission_id r
