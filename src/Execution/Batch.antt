-- ===== src/Execution/Batch.antt =====
-- `executeBatch` of src/execution/execution.service.ts and the methods that it calls.
pub mod Named
pub mod Inside
pub mod Lifecycle
pub mod Refusals
use judge_it.Prelude.{
  ℕ, ◌+◌, ◌*◌, Bool, true, false, not, List, [], ◌∷◌, ◌++◌, Option, none, some, if◌then◌else◌, leb,
  ltb, length, map,
}
use judge_it.Prelude.Lists.{take}
use judge_it.Prelude.Numbers.{show_nat}
use judge_it.Prelude.Results.{Result, done, thrown}
use judge_it.Prelude.Text.{Text, text, is_nil, trim, join}
use judge_it.Execution.Config.{
  merge_config, build_error_results, truncate, in_box, run_args, meta_path, result_of,
}
use judge_it.Execution.Meta.{parse_meta_file, build_result_from_meta}
use judge_it.Execution.Sandbox.{
  Command, init, cleanup, compile, run, chmod_x, cat, rm_f, read_file, write_file, Host, M, pure,
  throw, ◌>>=◌, ◌>>◌, try_catch, try_finally, exec, now, RunArgs,
}
use judge_it.Execution.Types.{
  ExecutionConfig, PartialConfig, IsolateMeta, Status, se, ce, ExecutionResult, TestCase,
  CompileConfig, LanguageConfig, languages, is_inherited,
}

abbrev pub ignore : M Text → M (Unit {0})
ignore m = try_catch (do m; pure tt) (λ _. pure tt)

abbrev pub guard_size : Bool → M (Unit {0})
guard_size true = pure tt
guard_size false = throw (text "Error: Code size exceeds 64KB limit")

-- `validateCode`: the length is counted in UTF-16 code units.
unfoldable pub validate_code : Text → M (Unit {0})
validate_code code = guard_size (leb (length code) (64 * 1024))

module _ (host : Host) where
  unfoldable pub init_box : ℕ → M Text
  init_box box_id = do stdout ← exec host (init box_id); pure (trim stdout)

  unfoldable pub destroy_box : ℕ → M (Unit {0})
  destroy_box box_id = ignore (exec host (cleanup box_id))

  -- `none` is `{ success: true }`, `some` the error of `{ success: false }`.
  unfoldable pub compile_source : ℕ → Text → CompileConfig → Text → M (Option Text)
  compile_source box_id source_file config box_path =
      try_catch
        (do
          exec host (
              compile box_id config.timeout (config.timeout * 2)
                (join (text " ") (config.cmd source_file) ++ text " 2> compile_error.txt"))
          pure none)
        λ _. do
          error ←
              try_catch (exec host (read_file (in_box box_path (text "compile_error.txt"))))
                (λ _. pure (text "Compilation failed"))
          pure (some (truncate error 1000))

  unfoldable pub read_box_file : Text → Text → M Text
  read_box_file box_path name = try_catch (exec host (cat (in_box box_path name))) (λ _. pure [])

  unfoldable pub read_meta : Text → M (Option IsolateMeta)
  read_meta meta_file =
      try_catch (do stdout ← exec host (cat meta_file); pure (some (parse_meta_file stdout)))
        (λ _. pure none)

  unfoldable pub run_test_case :
      ℕ → LanguageConfig → Text → TestCase → ExecutionConfig → Text → M ExecutionResult
  run_test_case box_id lang source_file test config box_path = do
    time ← now host
    let meta_file = meta_path box_id time
    try_finally
        (do
          exec host (write_file (in_box box_path (text "input.txt")) test.input)
          ignore (exec host (run (run_args box_id lang source_file test config meta_file)))
          output ← read_box_file box_path (text "output.txt")
          stderr ← read_box_file box_path (text "error.txt")
          meta ← read_meta meta_file
          pure (result_of meta output stderr))
        (ignore (exec host (rm_f meta_file)))

  unfoldable pub run_all :
      ℕ → LanguageConfig → Text → ExecutionConfig → Text → List TestCase → M (List ExecutionResult)
  run_all box_id lang source_file config box_path [] = pure []
  run_all box_id lang source_file config box_path (test ∷ tests) = do
    result ← run_test_case box_id lang source_file test config box_path
    rest ← run_all box_id lang source_file config box_path tests
    pure (record result { test_case_name = some test.name } ∷ rest)

  unfoldable pub make_executable : Text → Option Text → M (Option Text)
  make_executable box_path (some e) = pure (some e)
  make_executable box_path none = do
    ignore (exec host (chmod_x (in_box box_path (text "solution"))))
    pure none

  -- The `if (langConfig.compile)` block; `some` is the error with which the batch ends.
  unfoldable pub compile_if_needed : ℕ → Text → Text → Option CompileConfig → M (Option Text)
  compile_if_needed box_id source_file box_path none = pure none
  compile_if_needed box_id source_file box_path (some config) = do
    error ← compile_source box_id source_file config box_path
    make_executable box_path error

  unfoldable pub run_compiled :
      ℕ
      → LanguageConfig
      → Text
      → ExecutionConfig
      → Text
      → List TestCase
      → Option Text
      → M (List ExecutionResult)
  run_compiled box_id lang source_file config box_path tests (some error) =
      pure (build_error_results tests error ce)
  run_compiled box_id lang source_file config box_path tests none =
      run_all box_id lang source_file config box_path tests

  -- The `try` block of `executeBatch`.
  unfoldable pub run_batch :
      ℕ → Text → LanguageConfig → List TestCase → ExecutionConfig → Text → M (List ExecutionResult)
  run_batch box_id code lang tests config box_path = do
    let source_file = text "solution." ++ lang.extension
    validate_code code
    exec host (write_file (in_box box_path source_file) code)
    error ← compile_if_needed box_id source_file box_path lang.compile
    run_compiled box_id lang source_file config box_path tests error

  unfoldable pub in_sandbox :
      ℕ → Text → LanguageConfig → List TestCase → ExecutionConfig → Text → M (List ExecutionResult)
  in_sandbox box_id code lang tests config box_path =
      try_finally
        (try_catch (run_batch box_id code lang tests config box_path)
          λ e. pure (build_error_results tests (text "Internal execution error, " ++ e) se))
        (destroy_box box_id)

  abbrev pub opened :
      ℕ
      → Text
      → LanguageConfig
      → List TestCase
      → ExecutionConfig
      → Result Text Text × List Command
      → Result Text (List ExecutionResult) × List Command
  opened box_id code lang tests config (thrown e, log) =
      pure (build_error_results tests (text "Failed to initialize sandbox") se) log
  opened box_id code lang tests config (done box_path, log) =
      in_sandbox box_id code lang tests config box_path log

  -- The initialisation has a `catch` of its own, and no `finally`.
  unfoldable pub with_box :
      ℕ → Text → LanguageConfig → List TestCase → ExecutionConfig → M (List ExecutionResult)
  with_box box_id code lang tests config log =
      opened box_id code lang tests config (init_box box_id log)

  -- With a configuration of an inherited name: the source gets the name `solution.undefined`, and a
  -- test case ends where its `run` is read.
  unfoldable pub run_inherited : ℕ → Text → TestCase → M ExecutionResult
  run_inherited box_id box_path test = do
    time ← now host
    try_finally
        (do
          exec host (write_file (in_box box_path (text "input.txt")) test.input)
          throw (text "TypeError: Cannot read properties of undefined (reading 'cmd')"))
        (ignore (exec host (rm_f (meta_path box_id time))))

  unfoldable pub run_all_inherited : ℕ → Text → List TestCase → M (List ExecutionResult)
  run_all_inherited box_id box_path [] = pure []
  run_all_inherited box_id box_path (test ∷ tests) = do
    result ← run_inherited box_id box_path test
    rest ← run_all_inherited box_id box_path tests
    pure (record result { test_case_name = some test.name } ∷ rest)

  unfoldable pub run_batch_inherited : ℕ → Text → List TestCase → Text → M (List ExecutionResult)
  run_batch_inherited box_id code tests box_path = do
    validate_code code
    exec host (write_file (in_box box_path (text "solution.undefined")) code)
    run_all_inherited box_id box_path tests

  abbrev pub opened_inherited :
      ℕ
      → Text
      → List TestCase
      → Result Text Text × List Command
      → Result Text (List ExecutionResult) × List Command
  opened_inherited box_id code tests (thrown e, log) =
      pure (build_error_results tests (text "Failed to initialize sandbox") se) log
  opened_inherited box_id code tests (done box_path, log) =
      try_finally
        (try_catch (run_batch_inherited box_id code tests box_path)
          λ e. pure (build_error_results tests (text "Internal execution error, " ++ e) se))
        (destroy_box box_id) log

  -- A language without a configuration of its own.
  unfoldable pub no_language : ℕ → Text → Text → List TestCase → M (List ExecutionResult)
  no_language box_id code language tests log =
      if is_inherited language
      then opened_inherited box_id code tests (init_box box_id log)
      else pure (build_error_results tests (text "Unsupported language: " ++ language) se) log

  unfoldable pub execute_batch :
      ℕ → Text → Text → List TestCase → PartialConfig → M (List ExecutionResult)
  execute_batch box_id code language tests config = elim (languages language) [
    | none ↦ no_language box_id code language tests
    | some lang ↦ with_box box_id code lang tests (merge_config config)
  ]
