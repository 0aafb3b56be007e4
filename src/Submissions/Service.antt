-- ===== src/Submissions/Service.antt =====
-- src/submissions/submissions.service.ts, which passes calls on to the repositories, the requests of
-- submissions.controller.ts for submissions, and src/submissions/submissions-results.repository.ts.
use judge_it.Prelude.{ℕ, Bool, List, Option, none, some, leb}
use judge_it.Prelude.Actions.{Action}
use judge_it.Prelude.Text.{Text}
use judge_it.Judge.Verdict.{SubmissionResult}
use judge_it.Submissions.Repository as Repository
use judge_it.Submissions.Repository.{Submission, SubmissionDto, Database, Pagination}
use judge_it.Submissions.Solved.{Problem, Stored, SolvedProblemResult}
use judge_it.Submissions.Solved as Solved
use judge_it.Users.Types.{Error}

-- src/types/pagination.dto.ts, with its defaults, and the checks of its decorators on whole numbers.
pub record PaginationDto : Type 0 where
  pub limit : ℕ
  pub offset : ℕ

abbrev pub default_pagination : PaginationDto
default_pagination = record { limit = 10; offset = 0 }

abbrev pub is_valid : PaginationDto → Bool
is_valid dto = leb 1 dto.limit

module _ {S : Type 0} (db : Database S) where
  unfoldable pub add_submission : SubmissionDto → ℕ → Action S Error Submission
  add_submission dto user_id = Repository.add_submission db dto user_id

  unfoldable pub update_submission : ℕ → Text → ℕ → ℕ → Action S Error Submission
  update_submission submission_id verdict execution_time memory_used =
      Repository.update_submission db submission_id verdict execution_time memory_used

  unfoldable pub get_all_submissions :
      ℕ → Option Text → Option ℕ → Option ℕ → S → List Submission × Pagination
  get_all_submissions user_id verdict limit offset s =
      Repository.get_all_submissions db user_id verdict limit offset s

  unfoldable pub get_submission_details : ℕ → Action S Error Submission
  get_submission_details submission_id = Repository.get_submission_details db submission_id

  unfoldable pub get_submissions_count : ℕ → S → ℕ
  get_submissions_count user_id s = Repository.get_submissions_count db user_id s

  unfoldable pub add_submission_results : List SubmissionResult → Action S Error ℕ
  add_submission_results results = Repository.add_submission_results db results

  -- The requests, of which the query has been read into its type.
  unfoldable pub get_user_submissions : ℕ → PaginationDto → S → List Submission × Pagination
  get_user_submissions user_id dto s =
      get_all_submissions user_id none (some dto.limit) (some dto.offset) s

  unfoldable pub get_filtered_submissions :
      ℕ → PaginationDto → Option Text → S → List Submission × Pagination
  get_filtered_submissions user_id dto verdict s =
      get_all_submissions user_id verdict (some dto.limit) (some dto.offset) s

  unfoldable pub get_submission : ℕ → Action S Error Submission
  get_submission submission_id = get_submission_details submission_id

unfoldable pub get_solved_problems : ℕ → List Problem → List Stored → List SolvedProblemResult
get_solved_problems user_id problems rows = Solved.get_solved_problems user_id problems rows

unfoldable pub get_solved_problems_count : ℕ → List Stored → ℕ
get_solved_problems_count user_id rows = Solved.get_solved_problems_count user_id rows
