-- ===== src/Judge/Service/Sandboxed.antt =====
-- Batches that are run in the sandbox of src/execution/execution.service.ts, for a judge whose state
-- has the log of the commands to the host as a part.
use judge_it.Prelude.{ℕ, ◌≡◌, sym, ap, ◌∙◌, List, some, length, length-map}
use judge_it.Prelude.Actions.{Action}
use judge_it.Prelude.Results.{Result, done, thrown}
use judge_it.Prelude.Text.{Text}
use judge_it.Execution.Batch.{execute_batch}
use judge_it.Execution.Batch.Named.{execute_batch_total}
use judge_it.Execution.Sandbox.{Command, Host}
use judge_it.Execution.Types.{ExecutionResult, PartialConfig, TestCase}
use judge_it.Judge.Service.{EachTest}
use judge_it.Judge.Service.Stores.{stores}
use judge_it.Judge.Verdict.{Error, service}
use judge_it.Problems as Problems
use judge_it.Submissions.Repository.{Database}

module _ {S : Type 0} (host : Host) (log : S → List Command) (with_log : List Command → S → S) where
  abbrev pub with_state :
      S
      → Result Text (List ExecutionResult) × List Command
      → Result Error (List ExecutionResult) × S
  with_state s (done results, l) = (done results, with_log l s)
  with_state s (thrown e, l) = (thrown (service e), with_log l s)

  abbrev pub sandboxed :
      ℕ → Text → Text → List TestCase → PartialConfig → Action S Error (List ExecutionResult)
  sandboxed box_id code language tests config s =
      with_state s (execute_batch host box_id code language tests config (log s))

  with_state-eq-done :
      (s : S) (r : Result Text (List ExecutionResult) × List Command)
      {rs results : List ExecutionResult} {t : S}
      → with_state s r ≡ (done results, t)
      → r.0 ≡ done rs
      → results ≡ rs
  with_state-eq-done s (done x, l) h k = cc (h, k)
  with_state-eq-done s (thrown e, l) h k = cc

  -- The sandbox gives the judge what it relies on, whatever the host answers.
  pub sandboxed-EachTest :
      (db : Database S) (problems : Problems.Database S) (load : ℕ → Action S Error (List TestCase))
      → EachTest (stores db problems load sandboxed)
  sandboxed-EachTest db problems load box_id code language tests config s t results h =
      let (rs, ran, names) = execute_batch_total host box_id code language tests config (log s) in
      let same =
        with_state-eq-done s (execute_batch host box_id code language tests config (log s)) h ran in
      ap length same
      ∙ sym (length-map rs λ r. r.test_case_name)
      ∙ ap length names
      ∙ length-map tests λ u. some u.name
