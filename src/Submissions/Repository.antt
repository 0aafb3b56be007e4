-- ===== src/Submissions/Repository.antt =====
-- src/submissions/submissions.repository.ts, and `submit` of submissions.controller.ts. The calls of
-- the database client and of the queue are an interface over a state that is not described.
use judge_it.Prelude.{
  ℕ, ◌+◌, ◌-◌, ◌/◌, ◌≡◌, Bool, true, List, ◌++◌, Option, none, some, length, take, drop, ◌&&◌, ◌||◌,
  ◌==◌,
}
use judge_it.Prelude.Actions.{Action, ◌>>=◌, ◌>>◌, pure, gets, present}
use judge_it.Prelude.Eq.{text_beq}
use judge_it.Prelude.Numbers.{show_nat}
use judge_it.Prelude.Text.{Text, text, is_nil}
use judge_it.Judge.Verdict.{SubmissionResult}
use judge_it.Users.Types.{Error, not_found}

pub record Submission : Type 0 where
  pub id : ℕ
  pub user_id : ℕ
  pub problem_id : ℕ
  pub language : Text
  pub source_code : Text
  pub verdicate : Text
  pub execution_time : Option ℕ
  pub memory_user : Option ℕ

-- src/dto/submission.dto.ts.
pub record SubmissionDto : Type 0 where
  pub problem_id : ℕ
  pub source_code : Text
  pub language : Text

-- The `data` of the update that the judge makes.
pub record Judged : Type 0 where
  pub verdicate : Text
  pub execution_time : ℕ
  pub memory_user : ℕ

-- src/types/submission-queue.type.ts.
pub record QueuedEvent : Type 0 where
  pub submission_id : ℕ
  pub user_id : Text
  pub problem_id : ℕ
  pub language : Text
  pub code : Text

pub record Database (S : Type 0) : Type 0 where
  pub problem_find : ℕ → S → Option ℕ
  pub submission_create : ℕ → SubmissionDto → Action S Error Submission
  pub submission_update : ℕ → Judged → Action S Error Submission
  pub submission_find : ℕ → S → Option Submission
  -- `findMany` with its `where`, `skip` and `take`, and `count` with its `where`.
  pub submission_find_many : (Submission → Bool) → ℕ → ℕ → S → List Submission
  pub submission_count : (Submission → Bool) → S → ℕ
  -- `submissionResult.createMany`, which gives the number of rows
  pub result_create_many : List SubmissionResult → Action S Error ℕ
  -- The producer's `sendMessage`, to the topic of the submissions.
  pub send_message : QueuedEvent → Action S Error (Unit {0})

-- The rows that a `where` matches, in the order of the table; a page is a part of them, and the
-- count is of all of them.
pub record Laws {S : Type 0} (db : Database S) : Type 0 where
  pub rows : (Submission → Bool) → S → List Submission
  pub find_many_lem :
      (test : Submission → Bool) (skip n : ℕ) (s : S)
      → db.submission_find_many test skip n s ≡ take n (drop skip (rows test s))
  pub count_lem :
      (test : Submission → Bool) (s : S) → db.submission_count test s ≡ length (rows test s)

-- src/types/Pagination.ts.
pub record Pagination : Type 0 where
  pub total : ℕ
  pub total_pages : ℕ
  pub page : ℕ
  pub per_page : ℕ

abbrev pub or_default : Option ℕ → ℕ → ℕ
or_default none d = d
or_default (some n) d = n

-- An empty verdict is no filter, as a missing one is.
abbrev pub has_verdict : Option Text → Submission → Bool
has_verdict none row = true
has_verdict (some v) row = is_nil v || text_beq row.verdicate v

abbrev pub where_ : ℕ → Option Text → Submission → Bool
where_ user_id verdict row = row.user_id == user_id && has_verdict verdict row

-- The `where` of `getsolvedProblemsCount`, which is that of the query of `getSolvedProblems` too.
abbrev pub where_solved : ℕ → Submission → Bool
where_solved user_id row = row.user_id == user_id && text_beq row.verdicate (text "ACCEPTED")

module _ {S : Type 0} (db : Database S) where
  unfoldable pub add_submission : SubmissionDto → ℕ → Action S Error Submission
  add_submission dto user_id = do
    found ← gets (db.problem_find dto.problem_id)
    problem ←
        present found
          (not_found (text "Problem #" ++ (show_nat dto.problem_id ++ text " not found")))
    db.submission_create user_id dto

  unfoldable pub update_submission : ℕ → Text → ℕ → ℕ → Action S Error Submission
  update_submission submission_id verdict execution_time memory_used =
      db.submission_update submission_id
        (record { verdicate = verdict; execution_time = execution_time; memory_user = memory_used })

  -- `Math.ceil(count / limit)` and `Math.floor(offset / limit) + 1`, for a limit above 0.
  unfoldable pub get_all_submissions :
      ℕ → Option Text → Option ℕ → Option ℕ → S → List Submission × Pagination
  get_all_submissions user_id verdict limit offset s =
      let n = or_default limit 10 in
      let skip = or_default offset 0 in
      let count = db.submission_count (where_ user_id verdict) s in
      (
        db.submission_find_many (where_ user_id verdict) skip n s,
        record {
          total = count;
          total_pages = (count + (n - 1)) / n;
          page = skip / n + 1;
          per_page = n;
        },
      )

  unfoldable pub get_submission_details : ℕ → Action S Error Submission
  get_submission_details submission_id = do
    found ← gets (db.submission_find submission_id)
    present found (not_found (text "Submission #" ++ (show_nat submission_id ++ text " not found")))

  unfoldable pub get_submissions_count : ℕ → S → ℕ
  get_submissions_count user_id s = db.submission_count (λ row. row.user_id == user_id) s

  -- `addSubmissionResults` of submissions-results.repository.ts, of which the `catch` throws again.
  unfoldable pub add_submission_results : List SubmissionResult → Action S Error ℕ
  add_submission_results results = db.result_create_many results

  -- `submit`, with the user's id as a text and as the number that `parseInt` reads from it.
  unfoldable pub submit : SubmissionDto → Text → ℕ → Action S Error Submission
  submit dto user_text user_id = do
    row ← add_submission dto user_id
    db.send_message (record {
      submission_id = row.id;
      user_id = user_text;
      problem_id = row.problem_id;
      language = row.language;
      code = dto.source_code;
    })
    pure row
