-- ===== src/Execution/Config.antt =====
-- The parts of `executeBatch` of src/execution/execution.service.ts that give no command: the
-- configuration, the results made without a run, and the arguments of the run command. `path.join` of
-- a box path and a name is the path, `/box/` and the name.
use judge_it.Prelude.{
  ℕ, ◌+◌, ◌*◌, false, List, ◌∷◌, ◌++◌, Option, none, some, if◌then◌else◌, ltb, length, map,
}
use judge_it.Prelude.Lists.{take}
use judge_it.Prelude.Numbers.{show_nat}
use judge_it.Prelude.Text.{Text, text, is_nil, join}
use judge_it.Execution.Meta.{build_result_from_meta}
use judge_it.Execution.Sandbox.{RunArgs}
use judge_it.Execution.Types.{
  ExecutionConfig, PartialConfig, IsolateMeta, Status, se, ExecutionResult, TestCase,
  LanguageConfig,
}

abbrev pub default_config : ExecutionConfig
default_config = record {
  time_limit = 2;
  memory_limit = 256000;
  stack_limit = some 256000;
  processes = some 1;
}

abbrev pub or_default {ℓ} : {A : Type ℓ} → Option A → A → A
or_default none d = d
or_default (some a) d = a

abbrev pub or_else {ℓ} : {A : Type ℓ} → Option A → Option A → Option A
or_else none d = d
or_else (some a) d = some a

-- `{ ...this.defaultConfig, ...partial }`, where a field that is left out keeps its default.
unfoldable pub merge_config : PartialConfig → ExecutionConfig
merge_config partial = record {
  time_limit = or_default partial.time_limit default_config.time_limit;
  memory_limit = or_default partial.memory_limit default_config.memory_limit;
  stack_limit = or_else partial.stack_limit default_config.stack_limit;
  processes = or_else partial.processes default_config.processes;
}

-- `buildResult` with a name, an error and a status, and with the last two.
unfoldable pub build_result : Option Text → Text → Status → ExecutionResult
build_result name error status = record {
  test_case_name = name;
  success = false;
  output = none;
  error = some error;
  stderr = none;
  time = none;
  wall_time = none;
  memory = none;
  exit_code = none;
  signal = none;
  status = status;
}

unfoldable pub build_error_results : List TestCase → Text → Status → List ExecutionResult
build_error_results tests error status = map (λ tc. build_result (some tc.name) error status) tests

unfoldable pub truncate : Text → ℕ → Text
truncate t max_length =
    if ltb max_length (length t) then take max_length t ++ (b'\n' ∷ text "... (truncated)") else t

abbrev pub in_box : Text → Text → Text
in_box box_path name = box_path ++ (text "/box/" ++ name)

-- The file that is run, and the directory option.
abbrev pub exec_file : LanguageConfig → Text → Text
exec_file lang source_file = elim lang.compile [ none ↦ source_file | some _ ↦ text "solution" ]

abbrev pub usr_dir : LanguageConfig → Text
usr_dir lang = elim lang.compile [ none ↦ text "--dir=/usr" | some _ ↦ text "--dir=/usr:noexec" ]

abbrev pub run_args : ℕ → LanguageConfig → Text → TestCase → ExecutionConfig → Text → RunArgs
run_args box_id lang source_file test config meta_file =
    let wall_time = lang.run.wall_time config.time_limit in
    record {
      box_id = box_id;
      time = config.time_limit;
      wall_time = wall_time;
      mem = config.memory_limit;
      stack = config.stack_limit;
      processes = config.processes;
      usr_dir = usr_dir lang;
      meta = meta_file;
      shell_cmd =
          text "exec "
          ++ (join (text " ") (lang.run.cmd (exec_file lang source_file))
              ++ (text " "
                  ++ ((if is_nil test.input then text "< /dev/null" else text "< input.txt")
                      ++ text " > output.txt 2> error.txt")));
      exec_timeout = (wall_time + 5) * 1000;
    }

abbrev pub meta_path : ℕ → ℕ → Text
meta_path box_id time =
    text "/tmp/isolate-meta-" ++ (show_nat box_id ++ (text "-" ++ (show_nat time ++ text ".txt")))

abbrev pub result_of : Option IsolateMeta → Text → Text → ExecutionResult
result_of none output stderr = build_result none (text "Failed to read execution metadata") se
result_of (some meta) output stderr = build_result_from_meta meta output stderr
