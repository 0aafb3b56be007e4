-- ===== src/Execution/Batch/Lifecycle.antt =====
-- Which commands a batch gives, and when its box is set up and cleaned.
use mathlib.Core.List.{append_assoc}
use judge_it.Prelude.{ℕ, ◌≡◌, refl, ◌∙◌, List, [], ◌∷◌, ◌++◌, some, All}
use judge_it.Prelude.Results.{Result, done, thrown}
use judge_it.Prelude.Text.{Text, text, trim}
use judge_it.Execution.Batch.{init_box, destroy_box, in_sandbox, opened, with_box, execute_batch}
use judge_it.Execution.Config.{merge_config, build_error_results}
use judge_it.Execution.Sandbox.{
  Command, init, cleanup, Host, pure, try_finally, try_catch, exec, handled, continue, ◌>>=◌,
}
use judge_it.Execution.Types.{
  ExecutionConfig, PartialConfig, TestCase, LanguageConfig, languages, se,
}
use judge_it.Execution.Batch.Inside.{Inside, source_of, attempt-Inside}

module _ (host : Host) (box : ℕ) where
  pub swallowed :
      (r : Result Text Text) (log : List Command)
      → handled (continue (r, log) (λ _. pure tt)) (λ _. pure tt) ≡ (done tt, log)
  unfolding pure
  swallowed (done out) log = refl
  swallowed (thrown e) log = refl

  -- Cleaning up never throws.
  pub destroy_box_lem :
      (log : List Command) → destroy_box host box log ≡ (done tt, log ++ cleanup box ∷ [])
  unfolding destroy_box try_catch ◌>>=◌ exec
  destroy_box_lem log = swallowed (host.exec log (cleanup box)) (log ++ cleanup box ∷ [])

  pub init_box-done :
      (log : List Command) (stdout : Text)
      → host.exec log (init box) ≡ done stdout
      → init_box host box log ≡ (done (trim stdout), log ++ init box ∷ [])
  unfolding init_box ◌>>=◌ exec pure
  init_box-done log stdout h = rw h

  in_sandbox-log :
      (code : Text) (lang : LanguageConfig) (tests : List TestCase) (config : ExecutionConfig)
      (path : Text) (log : List Command)
      → (added : List Command) × ((in_sandbox host box code lang tests config path log).1
          ≡ (log ++ added) ++ cleanup box ∷ [])
        × All (Inside box path (source_of lang)) added
  unfolding in_sandbox try_finally
  in_sandbox-log code lang tests config path log =
      let (added, e, inside) =
        (attempt-Inside host box code lang tests config path
            (λ e. build_error_results tests (text "Internal execution error, " ++ e) se)).adds
          log in
      (added, rw (destroy_box_lem, e), inside)

  in_sandbox-added :
      (code : Text) (lang : LanguageConfig) (tests : List TestCase) (config : ExecutionConfig)
      (path : Text) (log : List Command)
      → (mid : List Command) × ((in_sandbox host box code lang tests config path
            (log ++ init box ∷ [])).1
          ≡ log ++ (init box ∷ (mid ++ cleanup box ∷ [])))
        × All (Inside box path (source_of lang)) mid
  in_sandbox-added code lang tests config path log =
      let (mid, e, inside) = in_sandbox-log code lang tests config path (log ++ init box ∷ []) in
      (mid, e ∙ simp append_assoc, inside)

  -- Whatever the host answers: a batch in a known language whose box is initialised gives the command
  -- that initialises it, then commands that only work in that box, and last the one that cleans it
  -- up, also when the code is too long, does not compile or fails, or a command throws. To work in the
  -- box is to compile or run in it, to write, read or make executable a file that is in the box at the
  -- path that the initialisation gave, or to read or remove a meta file named after the box.
  pub execute_batch_cleans_up :
      (code language : Text) (lang : LanguageConfig) (tests : List TestCase)
      (config : PartialConfig) (log : List Command) (stdout : Text)
      → languages language ≡ some lang
      → host.exec log (init box) ≡ done stdout
      → (mid : List Command) × ((execute_batch host box code language tests config log).1
          ≡ log ++ (init box ∷ (mid ++ cleanup box ∷ [])))
        × All (Inside box (trim stdout) (source_of lang)) mid
  unfolding execute_batch with_box
  execute_batch_cleans_up code language lang tests config log stdout known opens =
      rw (execute_batch, known, with_box, init_box-done log stdout opens, opened)
        (in_sandbox-added code lang tests (merge_config config) (trim stdout) log)
