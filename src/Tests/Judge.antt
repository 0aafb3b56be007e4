-- ===== src/Tests/Judge.antt =====
-- The judge's theorems at concrete inputs, and runs of src/judge.
use judge_it.Prelude.{
  ap, sym, ◌∙◌, ◌++◌, length-map, ◌≡◌, ◌↔◌, refl, List, [], ◌∷◌, true, false, none, some, length,
  map,
}
use judge_it.Prelude.Int.{pos}
use judge_it.Prelude.Numbers.{round_ms}
use judge_it.Prelude.Results.{done, thrown}
use judge_it.Prelude.Text.{Text, text, is_space, starts_with, trim, join}
use judge_it.Execution.Types.{Status, ok, tle, se, ExecutionResult, TestCase, languages}
use judge_it.Execution.Batch.{execute_batch, with_box, init_box}
use judge_it.Execution.Config.{build_error_results}
use judge_it.Execution.Sandbox.{Command, init, Host}
use judge_it.Execution.Sandbox as Sandbox
use judge_it.Prelude.Actions.{pure-eq-done}
use judge_it.Judge.Service.{
  SubmissionQueuedEvent, ProblemDetails, Services, EachTest, config_of, store, judge_submission,
}
use judge_it.Judge.TestCases.{
  ends_with, file_name, base_name, add_named, group, complete_entries, fetch_test_cases,
}
use judge_it.Judge.TestCases.Files.{files_of, fetch_test_cases-files_of}
use judge_it.Prelude.Eq.{text_eq}
use judge_it.Prelude.Maps.{get, put}
use judge_it.Judge.Service.Executor.{on_host}
use judge_it.Judge.Service.Outcome.{judge_submission_sound}
use judge_it.Judge.Normalize.{
  replace_crlf, replace_cr, split_space, non_empty, normalize_output_strict,
}
use judge_it.Judge.Normalize.Words.{words, normalize_eq_iff}
use judge_it.Judge.Verdict.{
  Verdict, acc, failed, validate_results, final_verdict, collect, report, verdict_text,
}
use judge_it.Judge.Verdict.Accepted.{AllPass, final-acc_iff}

-- "1 2\r\n3\r\n" and "1  2\n3".
abbrev crlf_output : Text
crlf_output = b'1' ∷ 32 ∷ b'2' ∷ 13 ∷ 10 ∷ b'3' ∷ 13 ∷ 10 ∷ []

abbrev pub lf_output : Text
lf_output = b'1' ∷ 32 ∷ 32 ∷ b'2' ∷ 10 ∷ b'3' ∷ []

normalized : normalize_output_strict crlf_output ≡ text "1 2 3"
unfolding normalize_output_strict replace_crlf replace_cr split_space non_empty is_space trim join
normalized = refl

normalize_eq_iff_example :
    (normalize_output_strict crlf_output ≡ normalize_output_strict lf_output)
    ↔ (words crlf_output ≡ words lf_output)
normalize_eq_iff_example = normalize_eq_iff crlf_output lf_output

abbrev pub result : Status → Text → ExecutionResult
result status output = record {
  test_case_name = none;
  success = true;
  output = some output;
  error = none;
  stderr = none;
  time = some (record { negative = false; digits = 125; scale = 3 });
  wall_time = none;
  memory = some (pos 2048);
  exit_code = none;
  signal = none;
  status = status;
}

abbrev test : Text → TestCase
test name = record { name = name; input = []; output = some lf_output }

abbrev results : List ExecutionResult
results = result ok crlf_output ∷ result tle [] ∷ result ok [] ∷ []

abbrev pub tests : List TestCase
tests = test (text "1") ∷ test (text "2") ∷ test (text "3") ∷ []

-- The loop stops at the second result.
abbrev verdicts : List Verdict
verdicts = acc ∷ failed tle ∷ []

validated : validate_results results tests ≡ done verdicts
unfolding validate_results normalize_output_strict replace_crlf replace_cr split_space non_empty
    is_space trim join
validated = refl

final-acc_iff_example : (final_verdict verdicts ≡ acc) ↔ AllPass results tests
final-acc_iff_example = final-acc_iff results tests validated

rounded : round_ms (record { negative = false; digits = 125; scale = 3 }) ≡ 125
unfolding round_ms
rounded = refl

-- A judge whose batches give every test case the output that it expects.
abbrev services : Services (List Text)
services = record {
  get_test_cases = λ id s. (done tests, s);
  get_problem_details = λ id s. (done (record { memory_limit = 256; time_limit = 2 }), s);
  execute_batch =
      λ box_id code language cases config s. (done (map (λ t. result ok lf_output) cases), s);
  update_submission = λ id final time memory s. (done tt, s ++ final ∷ []);
  add_submission_results = λ rows s. (done tt, s);
}

services-EachTest : EachTest services
services-EachTest box_id code language cases config s t rs h =
    ap length (sym (pure-eq-done h).0) ∙ length-map cases λ t. result ok lf_output

abbrev event : SubmissionQueuedEvent
event = record { submission_id = 9; problem_id = 4; language = text "cpp"; code = [] }

abbrev all_acc : List Text
all_acc = text "ACC" ∷ text "ACC" ∷ text "ACC" ∷ []

judged : judge_submission services event 0 [] ≡ (done all_acc, text "ACC" ∷ [])
unfolding judge_submission store report collect final_verdict validate_results
    normalize_output_strict replace_crlf replace_cr split_space non_empty is_space trim join
judged = refl

judge_submission_sound_example :
    (cases : List TestCase) × (details : ProblemDetails) × (rs : List ExecutionResult) × (vs : List
      Verdict)
    × (s1 : List Text) × (s2 : List Text) × (s3 : List Text) × (s4 : List Text)
    × (services.get_test_cases 4 [] ≡ (done cases, s1))
    × (services.get_problem_details 4 s1 ≡ (done details, s2))
    × (services.execute_batch 0 [] (text "cpp") cases (config_of details) s2 ≡ (done rs, s3))
    × (services.update_submission 9
          (verdict_text (final_verdict vs))
          (collect 9 0 0 vs rs cases).execution_time
          (collect 9 0 0 vs rs cases).memory_used
          s3
        ≡ (done tt, s4))
    × (services.add_submission_results (collect 9 0 0 vs rs cases).rows s4
        ≡ (done tt, text "ACC" ∷ []))
    × (all_acc ≡ map verdict_text vs)
    × ((final_verdict vs ≡ acc) ↔ AllPass rs cases)
judge_submission_sound_example =
    judge_submission_sound services services-EachTest event 0 [] (text "ACC" ∷ []) all_acc judged

-- A host that answers nothing: the batch has an error for the one test case.
abbrev silent : Host
silent = record { exec = λ log c. thrown (text "no host"); now = λ log. 0 }

abbrev given : Services (List Command)
given = record {
  get_test_cases = λ id s. (done [], s);
  get_problem_details = λ id s. (done (record { memory_limit = 256; time_limit = 2 }), s);
  execute_batch = λ box_id code language cases config s. (done [], s);
  update_submission = λ id final time memory s. (done tt, s);
  add_submission_results = λ rows s. (done tt, s);
}

abbrev refusal : List ExecutionResult
refusal = build_error_results (test (text "1") ∷ []) (text "Failed to initialize sandbox") se

refused :
    (on_host silent given).execute_batch 0 []
      (text "cpp")
      (test (text "1") ∷ [])
      (config_of (record { memory_limit = 256; time_limit = 2 }))
      []
    ≡ (done refusal, init 0 ∷ [])
unfolding execute_batch with_box init_box languages Sandbox.◌>>=◌ Sandbox.exec Sandbox.pure
refused = refl

abbrev stored : List TestCase
stored = test (text "1") ∷ record { name = text "2"; input = text "5"; output = none } ∷ []

fetch_test_cases-files_of_example : fetch_test_cases (files_of (text "problems/4") stored) ≡ stored
fetch_test_cases-files_of_example =
    fetch_test_cases-files_of (text "problems/4") stored (refl, (refl, tt)) ((refl, tt), (tt, tt))

-- A file of another kind makes no test case.
ignored : fetch_test_cases ((text "problems/4/readme.md", []) ∷ []) ≡ []
unfolding fetch_test_cases group add_named file_name base_name ends_with starts_with get put
    complete_entries
ignored = refl
