-- ===== src/Judge/Service/Stores.antt =====
-- The services of the judge as the server builds them: the problems, the submissions and their
-- results from the database, and any loader of test cases and any executor of batches.
use judge_it.Prelude.{ℕ, ◌≡◌, ap, ◌∙◌, List, some}
use judge_it.Prelude.Actions.{Action}
use judge_it.Prelude.Results.{Result, done, thrown}
use judge_it.Prelude.Text.{Text}
use judge_it.Execution.Types.{ExecutionResult, PartialConfig, TestCase}
use judge_it.Judge.Service.{Services}
use judge_it.Judge.Verdict.{SubmissionResult, service}
use judge_it.Judge.Verdict as Verdict
use judge_it.Problems as Problems
use judge_it.Submissions.Repository.{Submission, Judged, Database}
use judge_it.Submissions.Repository as Repository
use judge_it.Submissions.Service as Submissions
use judge_it.Users.Types.{Error, bad_request, unauthorized, forbidden, not_found, conflict, failure}

abbrev message_of : Error → Text
message_of (bad_request m) = m
message_of (unauthorized m) = m
message_of (forbidden m) = m
message_of (not_found m) = m
message_of (conflict m) = m
message_of (failure m) = m

-- What the judge sees of a call of a service.
abbrev pub seen : {S A : Type 0} → Result Error A × S → Result Verdict.Error A × S
seen (done a, s) = (done a, s)
seen (thrown e, s) = (thrown (service (message_of e)), s)

-- The same where the value is not used.
abbrev pub ran : {S A : Type 0} → Result Error A × S → Result Verdict.Error (Unit {0}) × S
ran (done a, s) = (done tt, s)
ran (thrown e, s) = (thrown (service (message_of e)), s)

module _ {S : Type 0} (submissions : Database S) (problems : Problems.Database S)
    (load : ℕ → Action S Verdict.Error (List TestCase))
    (execute : ℕ
      → Text
      → Text
      → List TestCase
      → PartialConfig
      → Action S Verdict.Error (List ExecutionResult)) where
  abbrev pub stores : Services S
  stores = record {
    get_test_cases = load;
    get_problem_details = λ id s. seen (Problems.get_problem_details problems id s);
    execute_batch = execute;
    update_submission = λ id verdict time memory s.
        ran (Submissions.update_submission submissions id verdict time memory s);
    add_submission_results = λ rows s. ran (Submissions.add_submission_results submissions rows s);
  }

-- What is relied on of the two writes: a row that was updated is found with its new values, and
-- adding results leaves the submissions.
pub record Writes {S : Type 0} (db : Database S) : Type 0 where
  pub find-update :
      (id : ℕ) (judged : Judged) (row : Submission) (s t : S)
      → db.submission_update id judged s ≡ (done row, t)
      → (found : Submission) × (db.submission_find id t ≡ some found)
        × (found.verdicate ≡ judged.verdicate)
  pub find-create_many :
      (id n : ℕ) (rows : List SubmissionResult) (s t : S)
      → db.result_create_many rows s ≡ (done n, t)
      → db.submission_find id t ≡ db.submission_find id s

ran-eq-done :
    {S A : Type 0} (r : Result Error A × S) {u : Unit {0}} {t : S}
    → ran r ≡ (done u, t)
    → (a : A) × (r ≡ (done a, t))
ran-eq-done (done a, s) h = (a, ap (λ p. (done a, p.1)) h)
ran-eq-done (thrown e, s) h = cc

module _ {S : Type 0} (db : Database S) (writes : Writes db) where
  -- The submission after its verdict and its results have been written.
  pub written_verdict :
      (id : ℕ) (verdict : Text) (time memory : ℕ) (rows : List SubmissionResult) (s m t : S)
      → ran (Submissions.update_submission db id verdict time memory s) ≡ (done tt, m)
      → ran (Submissions.add_submission_results db rows m) ≡ (done tt, t)
      → (found : Submission) × (db.submission_find id t ≡ some found) × (found.verdicate ≡ verdict)
  unfolding Submissions.update_submission Submissions.add_submission_results
      Repository.update_submission Repository.add_submission_results
  written_verdict id verdict time memory rows s m t updated added =
      let judged : Judged = record {
        verdicate = verdict;
        execution_time = time;
        memory_user = memory;
      } in
      let (row, update) = ran-eq-done (db.submission_update id judged s) updated in
      let (n, create) = ran-eq-done (db.result_create_many rows m) added in
      let (found, there, same) = writes.find-update id judged row s m update in
      (found, writes.find-create_many id n rows m t create ∙ there, same)
