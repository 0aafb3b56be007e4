-- ===== src/Judge/Service/Executor.antt =====
-- The sandbox as the batch executor of the judge: `executeBatch` gives a result for each test case.
use judge_it.Prelude.{◌≡◌, sym, ap, ◌∙◌, List, some, length, length-map}
use judge_it.Prelude.Results.{Result, done, thrown}
use judge_it.Prelude.Text.{Text}
use judge_it.Execution.Batch.{execute_batch}
use judge_it.Execution.Batch.Named.{execute_batch_total}
use judge_it.Execution.Sandbox.{Command, Host}
use judge_it.Execution.Types.{ExecutionResult}
use judge_it.Judge.Service.{Services, EachTest}
use judge_it.Judge.Verdict.{Error, service}

abbrev pub as_error :
    Result Text (List ExecutionResult) × List Command
    → Result Error (List ExecutionResult) × List Command
as_error (done results, log) = (done results, log)
as_error (thrown e, log) = (thrown (service e), log)

-- The services of the judge with the batches run on a host.
abbrev pub on_host : Host → Services (List Command) → Services (List Command)
on_host host services = record services {
  execute_batch = λ box_id code language tests config log.
      as_error (execute_batch host box_id code language tests config log);
}

executed :
    (r : Result Text (List ExecutionResult) × List Command) {rs results : List ExecutionResult}
    {t : List Command}
    → as_error r ≡ (done results, t)
    → r.0 ≡ done rs
    → results ≡ rs
executed (done x, log) h k = cc (h, k)
executed (thrown e, log) h k = cc

-- The executor gives the judge what it relies on, whatever the host answers.
pub on_host-EachTest :
    (host : Host) (services : Services (List Command)) → EachTest (on_host host services)
on_host-EachTest host services box_id code language tests config s t results h =
    let (rs, ran, names) = execute_batch_total host box_id code language tests config s in
    let same = executed (execute_batch host box_id code language tests config s) h ran in
    ap length same
    ∙ sym (length-map rs λ r. r.test_case_name)
    ∙ ap length names
    ∙ length-map tests λ u. some u.name
