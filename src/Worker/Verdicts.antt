-- ===== src/Worker/Verdicts.antt =====
-- A submission from the request of its user to the verdict in the database: `submit` of
-- src/submissions/submissions.controller.ts, src/kafka/kafka-producer.service.ts, `processMessage` of
-- src/worker/worker-manager.service.ts and `judgeSubmission` of src/judge/judge.service.ts together, with the sandbox of src/execution.
use judge_it.Prelude.{sym, ◌∙◌, ℕ, ◌≡◌, ◌↔◌, List, some}
use judge_it.Prelude.Actions.{Action}
use judge_it.Prelude.Results.{done}
use judge_it.Prelude.Text.{Text, text}
use judge_it.Execution.Types.{ExecutionResult, PartialConfig, TestCase}
use judge_it.Judge.Service.{judge_submission}
use judge_it.Judge.Service.Sandboxed.{sandboxed, sandboxed-EachTest}
use judge_it.Execution.Sandbox.{Command, Host}
use judge_it.Judge.Service.Stores.{stores, Writes, written_verdict}
use judge_it.Judge.Verdict.{Verdict, acc, final_verdict, collect, verdict_text}
use judge_it.Judge.Verdict as Judge
use judge_it.Judge.Verdict.Accepted.{AllPass, verdict_text-acc_iff}
use judge_it.Kafka.{Producer, Json, RoundTrip, queued_to, payload_of}
use judge_it.Problems as Problems
use judge_it.Submissions.Repository.{Submission, SubmissionDto, Database, submit}
use judge_it.Worker.Task.{process_message, event_of, submission_judged}

-- What is said of the accepted verdict holds of its text, as stored.
accepted_iff :
    (v : Verdict) {stored : Text} {A : Type 0}
    → stored ≡ verdict_text v
    → (v ≡ acc) ↔ A
    → (stored ≡ text "ACC") ↔ A
accepted_iff v same all =
    let named = verdict_text-acc_iff v in
    (λ h. all.0 (named.0 (sym same ∙ h)), λ a. same ∙ named.1 (all.1 a))

module _ {S : Type 0} (db : Database S) (problems : Problems.Database S)
    (load : ℕ → Action S Judge.Error (List TestCase)) (host : Host) (log : S → List Command)
    (with_log : List Command → S → S) (producer : Producer S) (json : Json) (topic : Text) where
  -- A submission whose request returned its row has sent a value to the queue, and a worker that
  -- takes the value and whose judgement returns leaves in the database, in that row, a verdict that
  -- is 'ACC' if and only if every result that the sandbox gave for the submitted code, on the test
  -- cases loaded for the problem of the row, is OK with the words of the expected output.
  pub verdict_stored :
      (dto : SubmissionDto) (user_text : Text) (user_id box_id : ℕ) (row : Submission)
      (s t w w' : S) (answer : List Text)
      → RoundTrip json
      → Writes db
      → submit (queued_to producer json topic db) dto user_text user_id s ≡ (done row, t)
      → judge_submission
          (stores db problems load (sandboxed host log with_log))
          (payload_of (event_of dto user_text row))
          box_id
          w
        ≡ (done answer, w')
      → (n : S) × (value : Text) × (producer.send topic value n ≡ (done tt, t))
        × (process_message
              (stores db problems load (sandboxed host log with_log))
              json
              (some value)
              box_id
              w
            ≡ w')
        × (found : Submission) × (tests : List TestCase) × (results : List ExecutionResult)
        × (config : PartialConfig) × (w1 : S) × (w2 : S) × (w3 : S) × (load row.problem_id w
            ≡ (done tests, w1))
        × (sandboxed host log with_log box_id dto.source_code row.language tests config w2
            ≡ (done results, w3))
        × (db.submission_find row.id w' ≡ some found)
        × ((found.verdicate ≡ text "ACC") ↔ AllPass results tests)
  verdict_stored dto user_text user_id box_id row s t w w' answer reads writes h judged =
      let (n, value, sent, ended, written) =
        submission_judged db producer (stores db problems load (sandboxed host log with_log)) json
          topic dto user_text user_id box_id row s t w w' answer reads
          (sandboxed-EachTest host log with_log db problems load) h judged in
      let (tests, details, results, vs, w1, w2, w3, w4, loaded, executed, updated, added, all) =
        written in
      let figures = collect row.id 0 0 vs results tests in
      let (found, there, verdict) =
        written_verdict db writes row.id (verdict_text (final_verdict vs)) figures.execution_time
          figures.memory_used figures.rows w3 w4 w' updated added in
      (
        n,
        value,
        sent,
        ended,
        found,
        tests,
        results,
        _,
        w1,
        w2,
        w3,
        loaded,
        executed,
        there,
        accepted_iff (final_verdict vs) verdict all,
      )
