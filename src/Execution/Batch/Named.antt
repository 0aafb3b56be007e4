-- ===== src/Execution/Batch/Named.antt =====
-- A batch has a result for each test case, whatever goes wrong.
use judge_it.Prelude.{
  ℕ, ◌≡◌, refl, ap, inl, inr, List, [], ◌∷◌, ◌++◌, Option, none, some, map, Option-cases,
  Bool-cases,
}
use judge_it.Prelude.Results.{Result, done, thrown}
use judge_it.Prelude.Text.{Text, text}
use judge_it.Execution.Batch.{
  validate_code, init_box, run_test_case, run_all, compile_if_needed, run_compiled, run_batch,
  in_sandbox, opened, run_inherited, run_all_inherited, run_batch_inherited, opened_inherited,
  no_language, with_box, execute_batch,
}
use judge_it.Execution.Batch.Lifecycle.{destroy_box_lem}
use judge_it.Execution.Config.{build_result, build_error_results, merge_config}
use judge_it.Execution.Sandbox.{
  Command, Host, M, pure, continue, handled, ◌>>=◌, try_catch, try_finally, exec,
}
use judge_it.Execution.Types.{
  ExecutionConfig, PartialConfig, Status, se, ce, ExecutionResult, TestCase, LanguageConfig,
  languages, is_inherited,
}

abbrev pub result_names : List ExecutionResult → List (Option Text)
result_names = map (λ r. r.test_case_name)

abbrev pub test_names : List TestCase → List (Option Text)
test_names = map (λ t. some t.name)

-- If there are results, they are those of the test cases, in order.
abbrev Named : List TestCase → Result Text (List ExecutionResult) → Type 0
Named tests (done results) = result_names results ≡ test_names tests
Named tests (thrown e) = Unit

build_error_results-names :
    (tests : List TestCase) (error : Text) (status : Status)
    → result_names (build_error_results tests error status) ≡ test_names tests
unfolding build_error_results build_result
build_error_results-names [] error status = refl
build_error_results-names (t ∷ ts) error status =
    ap (◌∷◌ (some t.name)) (build_error_results-names ts error status)

continue-Named :
    {A : Type 0} (tests : List TestCase) (r : Result Text A × List Command)
    (f : A → M (List ExecutionResult))
    → ((a : A) (log : List Command) → Named tests (f a log).0)
    → Named tests (continue r f).0
continue-Named tests (done a, log) f h = h a log
continue-Named tests (thrown e, log) f h = tt

cons-Named :
    (t : TestCase) (ts : List TestCase) (r : ExecutionResult)
    (rest : Result Text (List ExecutionResult) × List Command)
    → r.test_case_name ≡ some t.name
    → Named ts rest.0
    → Named (t ∷ ts) (continue rest (λ rs. pure (r ∷ rs))).0
unfolding pure
cons-Named t ts r (done rs, log) e h = rw (e, h)
cons-Named t ts r (thrown x, log) e h = tt

module _ (host : Host) (box : ℕ) (lang : LanguageConfig) where
  run_all-Named :
      (source : Text) (config : ExecutionConfig) (path : Text) (tests : List TestCase)
      (log : List Command)
      → Named tests (run_all host box lang source config path tests log).0
  unfolding run_all ◌>>=◌
  run_all-Named source config path [] log = unfold pure in refl
  run_all-Named source config path (t ∷ ts) log =
      continue-Named (t ∷ ts) (run_test_case host box lang source t config path log) _ λ r log'.
        cons-Named t ts _ (run_all host box lang source config path ts log') refl
          (run_all-Named source config path ts log')

  run_compiled-Named :
      (source : Text) (config : ExecutionConfig) (path : Text) (tests : List TestCase)
      (error : Option Text) (log : List Command)
      → Named tests (run_compiled host box lang source config path tests error log).0
  unfolding run_compiled
  run_compiled-Named source config path tests none log = run_all-Named source config path tests log
  run_compiled-Named source config path tests (some e) log =
      unfold pure in build_error_results-names tests e ce

  run_batch-Named :
      (code : Text) (tests : List TestCase) (config : ExecutionConfig) (path : Text)
      (log : List Command)
      → Named tests (run_batch host box code lang tests config path log).0
  unfolding run_batch ◌>>=◌
  run_batch-Named code tests config path log =
      let source = text "solution." ++ lang.extension in
      continue-Named tests (validate_code code log) _ λ _ log₁.
        continue-Named tests (exec host _ log₁) _ λ _ log₂.
          continue-Named tests (compile_if_needed host box source path lang.compile log₂) _
            λ error log₃. run_compiled-Named source config path tests error log₃

module _ (host : Host) (box : ℕ) where
  run_all_inherited-Named :
      (path : Text) (tests : List TestCase) (log : List Command)
      → Named tests (run_all_inherited host box path tests log).0
  unfolding run_all_inherited ◌>>=◌
  run_all_inherited-Named path [] log = unfold pure in refl
  run_all_inherited-Named path (t ∷ ts) log =
      continue-Named (t ∷ ts) (run_inherited host box path t log) _ λ r log'.
        cons-Named t ts _ (run_all_inherited host box path ts log') refl
          (run_all_inherited-Named path ts log')

  run_batch_inherited-Named :
      (code : Text) (tests : List TestCase) (path : Text) (log : List Command)
      → Named tests (run_batch_inherited host box code tests path log).0
  unfolding run_batch_inherited ◌>>=◌
  run_batch_inherited-Named code tests path log =
      continue-Named tests (validate_code code log) _ λ _ log₁.
        continue-Named tests (exec host _ log₁) _ λ _ log₂. run_all_inherited-Named path tests log₂

-- Results there are, and they are those of the test cases.
abbrev Complete : List TestCase → Result Text (List ExecutionResult) → Type 0
Complete tests (done results) = result_names results ≡ test_names tests
Complete tests (thrown e) = ⊥

handled-Complete :
    (tests : List TestCase) (r : Result Text (List ExecutionResult) × List Command)
    (recover : Text → List ExecutionResult)
    → Named tests r.0
    → ((e : Text) → result_names (recover e) ≡ test_names tests)
    → Complete tests (handled r (λ e. pure (recover e))).0
unfolding pure
handled-Complete tests (done results, log) recover h k = h
handled-Complete tests (thrown e, log) recover h k = k e

module _ (host : Host) (box : ℕ) (code : Text) where
  in_sandbox-Complete :
      (lang : LanguageConfig) (tests : List TestCase) (config : ExecutionConfig) (path : Text)
      (log : List Command)
      → Complete tests (in_sandbox host box code lang tests config path log).0
  unfolding in_sandbox try_finally try_catch
  in_sandbox-Complete lang tests config path log = rw destroy_box_lem (
      handled-Complete tests (run_batch host box code lang tests config path log) _
        (run_batch-Named host box lang code tests config path log)
        (λ e. build_error_results-names tests _ se))

  opened-Complete :
      (lang : LanguageConfig) (tests : List TestCase) (config : ExecutionConfig)
      (r : Result Text Text × List Command)
      → Complete tests (opened host box code lang tests config r).0
  opened-Complete lang tests config (done path, log) =
      in_sandbox-Complete lang tests config path log
  opened-Complete lang tests config (thrown e, log) =
      unfold pure in build_error_results-names tests _ se

  opened_inherited-Complete :
      (tests : List TestCase) (r : Result Text Text × List Command)
      → Complete tests (opened_inherited host box code tests r).0
  unfolding try_finally try_catch
  opened_inherited-Complete tests (thrown e, log) =
      unfold pure in build_error_results-names tests _ se
  opened_inherited-Complete tests (done path, log) = rw destroy_box_lem (
      handled-Complete tests (run_batch_inherited host box code tests path log) _
        (run_batch_inherited-Named host box code tests path log)
        (λ e. build_error_results-names tests _ se))

  no_language-Complete :
      (language : Text) (tests : List TestCase) (log : List Command)
      → Complete tests (no_language host box code language tests log).0
  unfolding no_language
  no_language-Complete language tests log = elim (Bool-cases (is_inherited language)) [
    | inl e ↦ rw e (opened_inherited-Complete tests (init_box host box log))
    | inr e ↦ rw e (unfold pure in build_error_results-names tests _ se)
  ]

  Complete-results :
      (tests : List TestCase) (r : Result Text (List ExecutionResult))
      → Complete tests r
      → (results : List ExecutionResult) × (r ≡ done results)
        × (result_names results ≡ test_names tests)
  Complete-results tests (done results) h = (results, refl, h)
  Complete-results tests (thrown e) h = absurd h

  execute_batch-Complete :
      (language : Text) (tests : List TestCase) (config : PartialConfig) (log : List Command)
      → Complete tests (execute_batch host box code language tests config log).0
  unfolding execute_batch with_box
  execute_batch-Complete language tests config log = elim (Option-cases (languages language)) [
    | inl e ↦ rw (execute_batch, e) (no_language-Complete language tests log)
    | inr (lang, e) ↦
        rw (execute_batch, e)
          (opened-Complete lang tests (merge_config config) (init_box host box log))
  ]

  -- Whatever the host answers, a batch throws nothing: it returns a result for each test case, under
  -- the test case's name and in their order, also for an unknown language, a box that cannot be
  -- initialised, code that is too long or does not compile, and a command that throws.
  pub execute_batch_total :
      (language : Text) (tests : List TestCase) (config : PartialConfig) (log : List Command)
      → (results : List ExecutionResult) × ((execute_batch host box code language tests config
            log).0
          ≡ done results)
        × (result_names results ≡ test_names tests)
  execute_batch_total language tests config log =
      Complete-results tests _ (execute_batch-Complete language tests config log)
