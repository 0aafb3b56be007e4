-- ===== src/Judge/Service/Outcome.antt =====
-- What a judgement writes.
use judge_it.Prelude.{ℕ, ◌≡◌, ◌↔◌, sym, ap, ◌∙◌, List, map, length, arith}
use judge_it.Prelude.Actions.{lift, continue, continue-eq-done, pure-eq-done}
use judge_it.Prelude.Results.{done}
use judge_it.Prelude.Text.{Text}
use judge_it.Execution.Types.{ExecutionResult, TestCase}
use judge_it.Judge.Service.{
  SubmissionQueuedEvent, ProblemDetails, Services, EachTest, config_of, store, judge_submission,
}
use judge_it.Judge.Verdict.{
  Verdict, acc, Report, validate_results, final_verdict, collect, report, verdict_text,
}
use judge_it.Judge.Verdict.Accepted.{AllPass, final-acc_iff, validate_results_total}

-- The verdicts of a report, and what else it says.
report_lem :
    (id : ℕ) (results : List ExecutionResult) (tests : List TestCase)
    → length results ≡ length tests
    → (vs : List Verdict) × (validate_results results tests ≡ done vs)
      × (report id results tests
          ≡ done (record {
            verdicts = vs;
            final = final_verdict vs;
            figures = collect id 0 0 vs results tests;
          }))
unfolding report
report_lem id results tests same =
    let (vs, e, short) = validate_results_total results tests (omega arith) in (vs, e, rw e)

module _ {S : Type 0} (services : Services S) (each : EachTest services) where
  store_steps :
      (id : ℕ) (r : Report) (s t : S) (answer : List Text)
      → store services id r s ≡ (done answer, t)
      → (m : S) × (services.update_submission id
            (verdict_text r.final)
            r.figures.execution_time
            r.figures.memory_used
            s
          ≡ (done tt, m))
        × (services.add_submission_results r.figures.rows m ≡ (done tt, t))
        × (answer ≡ map verdict_text r.verdicts)
  unfolding store
  store_steps id r s t answer h =
      let (u, m, updated, h1) =
        continue-eq-done
          (services.update_submission id (verdict_text r.final) r.figures.execution_time
            r.figures.memory_used s)
          _ h in
      let (v, n, added, h2) =
        continue-eq-done (services.add_submission_results r.figures.rows m) _ h1 in
      let (it, same) = pure-eq-done h2 in (m, updated, added ∙ ap (λ x. (done v, x)) same, sym it)

  -- A judgement that returns has loaded the test cases and the limits and has run the batch, and it
  -- has written as the submission's verdict 'ACC' if every result is OK with the words of the
  -- expected output, and another verdict otherwise.
  pub judge_submission_sound :
      (event : SubmissionQueuedEvent) (box_id : ℕ) (s t : S) (answer : List Text)
      → judge_submission services event box_id s ≡ (done answer, t)
      → (tests : List TestCase) × (details : ProblemDetails) × (results : List ExecutionResult)
        × (vs : List Verdict) × (s1 : S) × (s2 : S) × (s3 : S) × (s4 : S) × (services.get_test_cases
              event.problem_id s
            ≡ (done tests, s1))
        × (services.get_problem_details event.problem_id s1 ≡ (done details, s2))
        × (services.execute_batch box_id event.code event.language tests (config_of details) s2
            ≡ (done results, s3))
        × (services.update_submission event.submission_id
              (verdict_text (final_verdict vs))
              (collect event.submission_id 0 0 vs results tests).execution_time
              (collect event.submission_id 0 0 vs results tests).memory_used
              s3
            ≡ (done tt, s4))
        × (services.add_submission_results
              (collect event.submission_id 0 0 vs results tests).rows
              s4
            ≡ (done tt, t))
        × (answer ≡ map verdict_text vs)
        × ((final_verdict vs ≡ acc) ↔ AllPass results tests)
  unfolding judge_submission
  judge_submission_sound event box_id s t answer h =
      let (tests, s1, loaded, h1) =
        continue-eq-done (services.get_test_cases event.problem_id s) _ h in
      let (details, s2, limits, h2) =
        continue-eq-done (services.get_problem_details event.problem_id s1) _ h1 in
      let (results, s3, ran, h3) =
        continue-eq-done
          (services.execute_batch box_id event.code event.language tests (config_of details) s2) _
          h2 in
      let (vs, validated, made) =
        report_lem event.submission_id results tests
          (each box_id event.code event.language tests (config_of details) s2 s3 results ran) in
      let stored =
        ap (λ q. continue (lift q s3) (store services event.submission_id)) (sym made) ∙ h3 in
      let (s4, updated, added, it) = store_steps event.submission_id _ s3 t answer stored in
      (
        tests,
        details,
        results,
        vs,
        s1,
        s2,
        s3,
        s4,
        loaded,
        limits,
        ran,
        updated,
        added,
        it,
        final-acc_iff results tests validated,
      )
