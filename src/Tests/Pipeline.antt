-- ===== src/Tests/Pipeline.antt =====
-- A submission from its request to its verdict, at a concrete input: JSON stands for the numbers and
-- texts of an event, one after another, the queue has no state, and the host prints what the one test
-- case expects.
use judge_it.Prelude.{
  ℕ, ◌≡◌, refl, ap, ◌∙◌, List, [], ◌∷◌, ◌++◌, Option, none, some, length, take, drop, sym, ◌↔◌, inl,
  inr, Bool-cases, ◌==◌, if◌then◌else◌, arith,
}
use judge_it.Prelude.Results.{Result, done, thrown}
use judge_it.Prelude.Text.{Text, text, is_space, trim, join}
use judge_it.Judge.Service.{SubmissionQueuedEvent, store, judge_submission}
use judge_it.Judge.Normalize.{
  replace_crlf, replace_cr, split_space, non_empty, normalize_output_strict,
}
use judge_it.Judge.Verdict.{validate_results, final_verdict, collect, report}
use judge_it.Kafka.{Producer, Json, RoundTrip, payload_of, queued_to, send_message}
use judge_it.Submissions.Repository.{Submission, QueuedEvent, add_submission, submit}
use judge_it.Tests.Submissions.{row_of, dto}
use judge_it.Worker.Task.{process_message, event_of}
use judge_it.Worker.Verdicts.{verdict_stored}
use judge_it.Execution.Types.{ok, ExecutionResult, PartialConfig, TestCase}
use judge_it.Judge.Service.Stores.{stores, Writes}
use judge_it.Execution.Batch as Batch
use judge_it.Execution.Config as Config
use judge_it.Execution.Meta as Meta
use judge_it.Execution.Sandbox as Sandbox
use judge_it.Execution.Types as Types
use judge_it.Prelude.Maps as Maps
use judge_it.Prelude.Numbers as Numbers
use judge_it.Prelude.Text as Texts
use judge_it.Judge.Service.Sandboxed.{sandboxed}
use judge_it.Judge.Service.{Services}
use judge_it.Execution.Sandbox.{Command, Host}
use judge_it.Execution.Batch.{execute_batch}
use judge_it.Execution.Meta.Fields.{render}
use judge_it.Judge.Verdict as Judge
use judge_it.Judge.Verdict.{Verdict, acc, verdict_text}
use judge_it.Judge.Verdict.Accepted.{AllPass}
use judge_it.Prelude.Actions.{Action}
use judge_it.Prelude.Numbers.{round_ms, round_mb}
use judge_it.Problems as Problems
use judge_it.Submissions.Repository.{Judged, Database}
use judge_it.Submissions.Repository as Repository
use judge_it.Submissions.Service as Submissions
use judge_it.Users.Types.{Error, failure}

abbrev read : List ℕ → Result ℕ SubmissionQueuedEvent
read (id ∷ problem ∷ n ∷ rest) = done (record {
  submission_id = id;
  problem_id = problem;
  language = take n rest;
  code = drop n rest;
})
read (id ∷ problem ∷ []) = thrown 0
read (id ∷ []) = thrown 0
read [] = thrown 0

abbrev plain_json : Json
plain_json = record {
  ParseError = ℕ;
  stringify = λ e. e.submission_id ∷ e.problem_id ∷ length e.language ∷ (e.language ++ e.code);
  parse = read;
}

take-append : (xs ys : List ℕ) → take (length xs) (xs ++ ys) ≡ xs
take-append [] ys = refl
take-append (x ∷ xs) ys = ap (◌∷◌ x) (take-append xs ys)

drop-append : (xs ys : List ℕ) → drop (length xs) (xs ++ ys) ≡ ys
drop-append [] ys = refl
drop-append (x ∷ xs) ys = drop-append xs ys

abbrev event_with : QueuedEvent → Text → Text → Result ℕ SubmissionQueuedEvent
event_with e language code = done (record {
  submission_id = e.submission_id;
  problem_id = e.problem_id;
  language = language;
  code = code;
})

plain_json-RoundTrip : RoundTrip plain_json
plain_json-RoundTrip e =
    ap (λ l. event_with e l (drop (length e.language) (e.language ++ e.code)))
      (take-append e.language e.code)
    ∙ ap (event_with e e.language) (drop-append e.language e.code)

-- A table of one row, and the log of the host.
abbrev Store : Type 0
Store = Option Submission × List Command

abbrev lost : Error
lost = failure (text "lost")

abbrev find_one : ℕ → Store → Option Submission
find_one id (none, log) = none
find_one id (some row, log) = if row.id == id then some row else none

abbrev set_judged : Judged → Submission → Submission
set_judged judged row = record row {
  verdicate = judged.verdicate;
  execution_time = some judged.execution_time;
  memory_user = some judged.memory_user;
}

abbrev update_one : ℕ → Judged → Store → Result Error Submission × Store
update_one id judged (none, log) = (thrown lost, (none, log))
update_one id judged (some row, log) =
    if row.id == id
    then (done (set_judged judged row), (some (set_judged judged row), log))
    else (thrown lost, (some row, log))

abbrev single : Database Store
single = record {
  problem_find = λ id s. some id;
  submission_create = λ user_id dto s. (done (row_of 7 user_id), (some (row_of 7 user_id), s.1));
  submission_update = update_one;
  submission_find = find_one;
  submission_find_many = λ test skip n s. [];
  submission_count = λ test s. 0;
  result_create_many = λ rows s. (done 0, s);
  send_message = λ event s. (done tt, s);
}

find-update_one :
    (id : ℕ) (judged : Judged) (row : Submission) (s t : Store)
    → update_one id judged s ≡ (done row, t)
    → (found : Submission) × (find_one id t ≡ some found) × (found.verdicate ≡ judged.verdicate)
find-update_one id judged row (none, log) t h = cc
find-update_one id judged row (some old, log) t h = elim (Bool-cases (old.id == id)) [
  | inl same ↦
      (set_judged judged old, ap (λ p. find_one id p.1) (sym h) ∙ rw (same, same) refl, refl)
  | inr other ↦ absurd (ground (arith, h, other))
]

single-Writes : Writes single
single-Writes = record {
  find-update = find-update_one;
  find-create_many = λ id n rows s t h. ap (λ p. find_one id p.1) (sym h);
}

abbrev problems : Problems.Database Store
problems = record {
  find_unique_by_id = λ id s. some (record {
    problem = record {
      id = id;
      title = text "t";
      slug = text "s";
      difficulty = text "d";
      description = text "d";
    };
    memory_limit = 256;
    time_limit = 2;
  });
  find_unique_by_slug = λ slug s. none;
  find_many = λ q s. [];
}

-- A host on which every command succeeds and prints the text of a meta file, which is what the one
-- test case expects.
abbrev printed : Text
printed = render ((text "time", text "0.125") ∷ (text "max-rss", text "2048") ∷ [])

abbrev host : Host
host = record { exec = λ log command. done printed; now = λ log. 7 }

abbrev log_of : Store → List Command
log_of s = s.1

abbrev with_log : List Command → Store → Store
with_log l s = (s.0, l)

abbrev load : ℕ → Action Store Judge.Error (List TestCase)
load id s = (done (record { name = text "1"; input = text "5"; output = some printed } ∷ []), s)

abbrev services : Services Store
services = stores single problems load (sandboxed host log_of with_log)

abbrev producer : Producer Store
producer = record { inc_produced = λ s. (done tt, s); send = λ topic value s. (done tt, s) }

abbrev stored_row : Store
stored_row = (some (row_of 7 1), [])

accepted :
    submit (queued_to producer plain_json (text "q") single) dto (text "1") 1 (none, [])
    ≡ (done (row_of 7 1), stored_row)
unfolding submit add_submission send_message
accepted = refl

abbrev judged : Result Judge.Error (List Text) × Store
judged = judge_submission services (payload_of (event_of dto (text "1") (row_of 7 1))) 0 stored_row

judged_row : judged ≡ (done (text "ACC" ∷ []), judged.1)
unfolding judge_submission store report collect final_verdict validate_results round_ms round_mb
    normalize_output_strict replace_crlf replace_cr split_space non_empty is_space trim join
    Problems.get_problem_details Submissions.update_submission Repository.update_submission
    Submissions.add_submission_results Repository.add_submission_results execute_batch
    Types.languages Batch.with_box Batch.init_box Sandbox.◌>>=◌ Sandbox.exec Sandbox.pure
    Batch.in_sandbox Sandbox.try_finally Batch.destroy_box Sandbox.try_catch Batch.run_batch
    Batch.validate_code Batch.compile_if_needed Batch.compile_source Batch.make_executable
    Batch.run_compiled Batch.run_all Batch.read_box_file Batch.read_meta Batch.run_test_case
    Config.build_error_results Config.build_result Config.merge_config Config.truncate Meta.at_colon
    Meta.build_result_from_meta Meta.get_signal_name Meta.meta_of Meta.on_exit Meta.on_failure
    Meta.on_signal Meta.on_timeout Meta.parse_meta_file Meta.raw_fields Meta.read_lines
    Meta.split_lines Sandbox.now Sandbox.throw Maps.get Maps.put Numbers.digits Numbers.fraction
    Numbers.parse_float Numbers.parse_int Numbers.show_fuel Numbers.show_int Numbers.show_nat
    Numbers.sign Numbers.value_of Texts.includes Texts.starts_with Texts.trim_end Texts.trim_start
judged_row = refl

verdict_stored_example :
    (n : Store) × (value : Text) × (producer.send (text "q") value n ≡ (done tt, stored_row))
    × (process_message services plain_json (some value) 0 stored_row ≡ judged.1)
    × (found : Submission) × (cases : List TestCase) × (results : List ExecutionResult)
    × (config : PartialConfig) × (w1 : Store) × (w2 : Store) × (w3 : Store) × (load 4 stored_row
        ≡ (done cases, w1))
    × (sandboxed host log_of with_log 0 (text "x") (text "cpp") cases config w2
        ≡ (done results, w3))
    × (find_one 7 judged.1 ≡ some found)
    × ((found.verdicate ≡ text "ACC") ↔ AllPass results cases)
verdict_stored_example =
    verdict_stored single problems load host log_of with_log producer plain_json (text "q") dto
      (text "1") 1 0 (row_of 7 1) (none, []) stored_row stored_row judged.1 (text "ACC" ∷ [])
      plain_json-RoundTrip single-Writes accepted judged_row
