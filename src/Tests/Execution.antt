-- ===== src/Tests/Execution.antt =====
-- The theorems on execution at concrete inputs, and runs of src/execution.
use judge_it.Prelude.{
  ℕ, ◌≡◌, ◌↔◌, ◌<◌, refl, List, [], ◌∷◌, ◌++◌, true, false, none, some, arith, All, length,
}
use judge_it.Prelude.Eq.{text_eq}
use judge_it.Prelude.Int.{pos}
use judge_it.Prelude.Lists.{replicate, length-replicate}
use judge_it.Prelude.Maps.{get, put}
use judge_it.Prelude.Numbers.{zero_decimal, parse_int, parse_float}
use judge_it.Prelude.Results.{Result, done, thrown}
use judge_it.Prelude.Text.{Text, text, is_space, trim, includes}
use judge_it.Execution.Batch.{
  execute_batch, no_language, init_box, destroy_box, run_batch_inherited, run_all_inherited,
  run_inherited, validate_code,
}
use judge_it.Execution.Batch.Inside.{Inside}
use judge_it.Execution.Batch.Lifecycle.{execute_batch_cleans_up}
use judge_it.Execution.Batch.Named.{result_names, execute_batch_total}
use judge_it.Execution.Config.{build_error_results, build_result}
use judge_it.Judge.Verdict.{failed, validate_results, final_verdict, verdict_text}
use judge_it.Judge.Verdict.Uncompiled.{report_of, refused_commands, uncompiled-ce}
use judge_it.Execution.Meta.{
  split_lines, at_colon, read_lines, raw_fields, meta_of, parse_meta_file, build_result_from_meta,
  parsed,
}
use judge_it.Execution.Meta.Fields.{IsField, render}
use judge_it.Execution.Meta.Outcome.{IsNormal, IsZero, result-ok_iff, result-limits_iff}
use judge_it.Execution.Sandbox.{
  Command, init, cleanup, compile, read_file, Host, try_finally, try_catch, throw, pure, exec, now,
  ◌>>=◌,
}
use judge_it.Execution.Types.{
  IsolateMeta, PartialConfig, TestCase, python, languages, is_inherited, ok, se, tle, mle, ce, cpp,
  cpp_compile,
}

-- A host on which every command succeeds and prints a meta file.
abbrev fields : List (Text × Text)
fields = (text "time", text "0.125") ∷ (text "max-rss", text "2048") ∷ []

abbrev host : Host
host = record { exec = λ _ _. done (render fields); now = λ _. 7 }

abbrev no_config : PartialConfig
no_config = record { time_limit = none; memory_limit = none; stack_limit = none; processes = none }

abbrev tests : List TestCase
tests = record { name = text "1"; input = text "5"; output = some (text "5") } ∷ []

execute_batch_total_example :
    (results : _) × ((execute_batch host 3 (text "print(5)") (text "python") tests no_config []).0
      ≡ done results)
    × (result_names results ≡ some (text "1") ∷ [])
execute_batch_total_example =
    execute_batch_total host 3 (text "print(5)") (text "python") tests no_config []

execute_batch_cleans_up_example :
    (mid : List Command) × ((execute_batch host 3
        (text "print(5)")
        (text "python")
        tests
        no_config
        []).1
      ≡ init 3 ∷ (mid ++ cleanup 3 ∷ []))
    × All (Inside 3 (trim (render fields)) (text "solution.py")) mid
unfolding languages
execute_batch_cleans_up_example =
    execute_batch_cleans_up host 3 (text "print(5)") (text "python") python tests no_config []
      (render fields) refl refl

abbrev letter_x : ℕ
letter_x = b'x'

long_code : Text
long_code = replicate 65537 letter_x

long_code_is_long : 65536 < length long_code
unfolding long_code
long_code_is_long = omega (arith, length-replicate 65537 letter_x)

abbrev killed : IsolateMeta
killed = record {
  status = text "SG";
  time = zero_decimal;
  wall_time = zero_decimal;
  memory = pos 0;
  exit_code = pos 0;
  signal = pos 9;
  message = text "out of memory";
}

result-ok_iff_example :
    let r = build_result_from_meta (parse_meta_file (text "exitcode:0")) [] [] in
    let raw = raw_fields (text "exitcode:0") in
    ((r.status ≡ ok) ↔ (
      IsNormal (get (text "status") raw) × IsZero (parsed parse_int (get (text "exitcode") raw))))
    × ((r.success ≡ true) ↔ (r.status ≡ ok))
result-ok_iff_example = result-ok_iff (text "exitcode:0") [] []

result-limits_iff_example :
    let r = build_result_from_meta killed [] [] in
    ((r.status ≡ tle) ↔ (killed.status ≡ text "TO"))
    × ((r.status ≡ mle) ↔ (
        (killed.status ≡ text "SG")
        × (killed.signal ≡ pos 9)
        × (includes (text "memory") killed.message ≡ true)))
result-limits_iff_example = result-limits_iff killed [] []

fields-IsField : All IsField fields
unfolding trim is_space
fields-IsField = (
  record {
    key_ne_nil = refl;
    key_lacks_colon = (refl, (refl, (refl, (refl, tt))));
    key_lacks_lf = (refl, (refl, (refl, (refl, tt))));
    value_lacks_lf = (refl, (refl, (refl, (refl, (refl, tt)))));
    key_trimmed = refl;
    value_trimmed = refl;
  },
  (
    record {
      key_ne_nil = refl;
      key_lacks_colon = (refl, (refl, (refl, (refl, (refl, (refl, (refl, tt)))))));
      key_lacks_lf = (refl, (refl, (refl, (refl, (refl, (refl, (refl, tt)))))));
      value_lacks_lf = (refl, (refl, (refl, (refl, tt))));
      key_trimmed = refl;
      value_trimmed = refl;
    },
    tt,
  ),
)

metadata :
    let m = parse_meta_file (render fields) in
    (m.status ≡ text "RE")
    × (m.memory ≡ pos 2048)
    × (m.time ≡ record { negative = false; digits = 125; scale = 3 })
unfolding parse_meta_file meta_of raw_fields read_lines split_lines at_colon get put parse_int
    parse_float trim is_space
metadata = (refl, refl, refl)

-- A host on which the compiler fails and leaves a file of errors.
abbrev refusing : List Command → Command → Result Text Text
refusing log (compile box time wall_time cmd) = thrown (text "Command failed")
refusing log (read_file path) = done (text "error: expected ;")
refusing log other = done (text "/box")

abbrev no_compiler : Host
no_compiler = record { exec = refusing; now = λ _. 7 }

abbrev case : TestCase
case = record { name = text "1"; input = text "5"; output = some (text "5") }

abbrev refused_code : Text
refused_code = text "int main() {"

uncompiled-ce_example :
    let report = report_of (done (text "error: expected ;")) in
    (execute_batch no_compiler 3 refused_code (text "cpp") (case ∷ []) no_config [] ≡ (
      done (build_error_results (case ∷ []) report ce),
      refused_commands no_compiler 3 refused_code (trim (text "/box")) cpp cpp_compile,
    ))
    × (validate_results (build_error_results (case ∷ []) report ce) (case ∷ [])
        ≡ done (failed ce ∷ []))
    × (verdict_text (final_verdict (failed ce ∷ [])) ≡ text "CE")
unfolding languages
uncompiled-ce_example =
    uncompiled-ce no_compiler 3 refused_code (text "cpp") cpp cpp_compile case [] no_config
      (text "/box") (text "/box") (text "Command failed") [] refl refl (omega arith) refl refl refl

-- A name that every object inherits is no language: the box is opened and cleaned, nothing is run.
inherited_test :
    (execute_batch host 3 [] (text "constructor") tests no_config []).0
    ≡ done (
        build_error_results tests
          (text
            "Internal execution error, TypeError: Cannot read properties of undefined (reading 'cmd')")
          se)
unfolding execute_batch languages no_language is_inherited init_box destroy_box run_batch_inherited
    run_all_inherited run_inherited validate_code try_finally try_catch throw pure exec now ◌>>=◌
    build_error_results build_result
inherited_test = refl
