-- ===== src/Execution/Batch/Refusals.antt =====
-- Batches that end before a test case is run.
use mathlib.Core.List.{append_assoc}
use judge_it.Prelude.{ℕ, ◌≡◌, ◌<◌, List, [], ◌∷◌, ◌++◌, none, some, length, leb, false, arith}
use judge_it.Prelude.Results.{done, thrown}
use judge_it.Prelude.Text.{Text, text, trim}
use judge_it.Execution.Batch.{
  validate_code, run_batch, in_sandbox, with_box, no_language, execute_batch,
}
use judge_it.Execution.Batch.Lifecycle.{destroy_box_lem, init_box-done}
use judge_it.Execution.Config.{build_error_results, merge_config}
use judge_it.Execution.Sandbox.{
  Command, init, cleanup, Host, pure, throw, ◌>>=◌, try_catch, try_finally,
}
use judge_it.Execution.Types.{PartialConfig, se, TestCase, LanguageConfig, languages, is_inherited}

module _ (host : Host) (box : ℕ) (code language : Text) (tests : List TestCase)
    (config : PartialConfig) (log : List Command) where
  -- A language that the judge does not know: nothing is asked of the host.
  pub unsupported_language :
      languages language ≡ none
      → is_inherited language ≡ false
      → execute_batch host box code language tests config log
        ≡ (done (build_error_results tests (text "Unsupported language: " ++ language) se), log)
  unfolding execute_batch no_language pure
  unsupported_language e own = rw (execute_batch, e, own)

  too_long_batch :
      (lang : LanguageConfig) (path : Text) (log' : List Command)
      → 65536 < length code
      → run_batch host box code lang tests (merge_config config) path log'
        ≡ (thrown (text "Error: Code size exceeds 64KB limit"), log')
  unfolding run_batch ◌>>=◌ validate_code throw
  too_long_batch lang path log' h =
      let big : leb (length code) 65536 ≡ false = ground arith in rw (run_batch, validate_code, big)

  -- Code of more than 65536 code units is refused with 'SE' for each test case, and the box is
  -- cleaned with nothing written to it, compiled or run.
  code_too_long :
      (lang : LanguageConfig) (stdout : Text)
      → languages language ≡ some lang
      → host.exec log (init box) ≡ done stdout
      → 65536 < length code
      → execute_batch host box code language tests config log ≡ (
        done (
            build_error_results tests
              (text "Internal execution error, Error: Code size exceeds 64KB limit")
              se),
        log ++ (init box ∷ cleanup box ∷ []),
      )
  unfolding execute_batch with_box in_sandbox try_finally try_catch pure
  code_too_long lang stdout known opens h = rw (
    execute_batch,
    known,
    init_box-done host box log stdout opens,
    too_long_batch lang (trim stdout) (log ++ init box ∷ []) h,
    destroy_box_lem host box (log ++ init box ∷ []),
    append_assoc log,
  )
