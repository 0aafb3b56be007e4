-- ===== src/Judge/Verdict/Uncompiled.antt =====
-- Code that does not compile: the batch of src/execution/execution.service.ts, and the verdict that
-- src/judge/judge.service.ts makes of its results.
use mathlib.Core.List.{append_assoc}
use judge_it.Prelude.{
  ℕ, ◌*◌, ◌≤◌, ◌≡◌, refl, inl, inr, List, [], ◌∷◌, ◌++◌, some, true, arith, leb, length,
}
use judge_it.Prelude.Results.{Result, done, thrown, Result-cases}
use judge_it.Prelude.Text.{Text, text, trim, join}
use judge_it.Execution.Batch.{
  validate_code, compile_source, compile_if_needed, make_executable, run_compiled, run_batch,
  in_sandbox, with_box, execute_batch,
}
use judge_it.Execution.Batch.Lifecycle.{destroy_box_lem, init_box-done}
use judge_it.Execution.Config.{build_result, build_error_results, truncate, in_box, merge_config}
use judge_it.Execution.Sandbox.{
  Command, init, cleanup, compile, write_file, read_file, Host, pure, ◌>>=◌, try_catch, try_finally,
  exec,
}
use judge_it.Execution.Types.{PartialConfig, ce, TestCase, CompileConfig, LanguageConfig, languages}
use judge_it.Judge.Verdict.{failed, validate_results, final_verdict, verdict_text}

-- What is reported of the compiler: its file of errors, or that it failed.
abbrev pub report_of : Result Text Text → Text
report_of (done errors) = truncate errors 1000
report_of (thrown e) = truncate (text "Compilation failed") 1000

abbrev pub source_name : LanguageConfig → Text
source_name lang = text "solution." ++ lang.extension

abbrev pub write_source : Text → LanguageConfig → Text → Command
write_source path lang code = write_file (in_box path (source_name lang)) code

abbrev pub compile_command : ℕ → LanguageConfig → CompileConfig → Command
compile_command box lang config =
    compile box config.timeout (config.timeout * 2)
      (join (text " ") (config.cmd (source_name lang)) ++ text " 2> compile_error.txt")

abbrev pub read_errors : Text → Command
read_errors path = read_file (in_box path (text "compile_error.txt"))

module _ (host : Host) (box : ℕ) where
  compile_source-refused :
      (lang : LanguageConfig) (config : CompileConfig) (path e : Text) (log : List Command)
      → host.exec log (compile_command box lang config) ≡ thrown e
      → compile_source host box (source_name lang) config path log ≡ (
        done (
            some (
              report_of
                (host.exec (log ++ compile_command box lang config ∷ []) (read_errors path)))),
        (log ++ compile_command box lang config ∷ []) ++ read_errors path ∷ [],
      )
  unfolding compile_source try_catch exec ◌>>=◌ pure
  compile_source-refused lang config path e log h =
      elim (Result-cases
        (host.exec (log ++ compile_command box lang config ∷ []) (read_errors path))) [
          | inl (errors, read) ↦ rw (compile_source, h, read) refl
          | inr (lost, read) ↦ rw (compile_source, h, read) refl
        ]

  -- The commands of a batch whose code does not compile.
  abbrev pub refused_commands : Text → Text → LanguageConfig → CompileConfig → List Command
  refused_commands code path lang config =
      init box
      ∷ write_source path lang code
      ∷ compile_command box lang config
      ∷ read_errors path
      ∷ cleanup box
      ∷ []

  run_batch-refused :
      (code : Text) (lang : LanguageConfig) (config : CompileConfig) (tests : List TestCase)
      (limits : PartialConfig) (path w e : Text) (log : List Command)
      → length code ≤ 65536
      → lang.compile ≡ some config
      → host.exec log (write_source path lang code) ≡ done w
      → host.exec (log ++ write_source path lang code ∷ []) (compile_command box lang config)
        ≡ thrown e
      → let compiled =
          (log ++ write_source path lang code ∷ []) ++ compile_command box lang config ∷ [] in
        run_batch host box code lang tests (merge_config limits) path log ≡ (
          done (build_error_results tests (report_of (host.exec compiled (read_errors path))) ce),
          compiled ++ read_errors path ∷ [],
        )
  unfolding run_batch ◌>>=◌ validate_code exec compile_if_needed make_executable run_compiled pure
  run_batch-refused code lang config tests limits path w e log short compiled written h =
      let small : leb (length code) 65536 ≡ true = ground arith in
      rw
        (
          run_batch,
          validate_code,
          small,
          compiled,
          written,
          compile_source-refused lang config path e (log ++ write_source path lang code ∷ []) h,
        )
        refl

  -- Code that does not compile is judged 'CE' and never run: where the box opens, the source is
  -- written and the compiler fails, a batch has one result with the compiler's report for each of its
  -- test cases, it gives no command but those that set up the box, compile and clean, and the verdict
  -- made of these results and test cases is 'CE', if there is a test case.
  pub uncompiled-ce :
      (code language : Text) (lang : LanguageConfig) (config : CompileConfig) (t : TestCase)
      (ts : List TestCase) (limits : PartialConfig) (stdout w e : Text) (log : List Command)
      → languages language ≡ some lang
      → lang.compile ≡ some config
      → length code ≤ 65536
      → host.exec log (init box) ≡ done stdout
      → host.exec (log ++ init box ∷ []) (write_source (trim stdout) lang code) ≡ done w
      → host.exec
          ((log ++ init box ∷ []) ++ write_source (trim stdout) lang code ∷ [])
          (compile_command box lang config)
        ≡ thrown e
      → let path = trim stdout in
        let compiled =
          ((log ++ init box ∷ []) ++ write_source path lang code ∷ [])
          ++ compile_command box lang config ∷ [] in
        let report = report_of (host.exec compiled (read_errors path)) in
        (execute_batch host box code language (t ∷ ts) limits log ≡ (
          done (build_error_results (t ∷ ts) report ce),
          log ++ refused_commands code path lang config,
        ))
        × (validate_results (build_error_results (t ∷ ts) report ce) (t ∷ ts)
            ≡ done (failed ce ∷ []))
        × (verdict_text (final_verdict (failed ce ∷ [])) ≡ text "CE")
  unfolding execute_batch with_box in_sandbox try_finally try_catch pure validate_results
      final_verdict build_error_results build_result
  uncompiled-ce code language lang config t ts limits stdout w e log known compiled short opens
        written h =
      let path = trim stdout in
      let ran =
        run_batch-refused code lang config (t ∷ ts) limits path w e (log ++ init box ∷ []) short
          compiled written h in
      (
        rw
            (
              execute_batch,
              known,
              init_box-done host box log stdout opens,
              ran,
              destroy_box_lem host box (
                  (((log ++ init box ∷ []) ++ write_source path lang code ∷ [])
                    ++ compile_command box lang config ∷ [])
                  ++ read_errors path ∷ []),
              append_assoc log,
              append_assoc log,
              append_assoc log,
              append_assoc log,
            )
            refl,
        refl,
        refl,
      )
