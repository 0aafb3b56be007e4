-- ===== src/Execution/Batch/Inside.antt =====
-- The commands of a batch between the two ends of its box work in that box.
use judge_it.Prelude.{
  ℕ, ◌≡◌, refl, Bool, true, false, List, [], ◌∷◌, ◌++◌, Option, none, some, leb, length, ◌⊎◌, inl,
  inr,
}
use judge_it.Prelude.Text.{Text, text}
use judge_it.Execution.Batch.{
  ignore, guard_size, validate_code, compile_source, read_box_file, read_meta, run_test_case,
  run_all, make_executable, compile_if_needed, run_compiled, run_batch,
}
use judge_it.Execution.Config.{in_box, run_args, meta_path}
use judge_it.Execution.Sandbox.{
  Command, init, cleanup, compile, run, chmod_x, cat, rm_f, read_file, write_file, Host, pure,
  try_catch, exec,
}
use judge_it.Execution.Sandbox.Emits.{Emits, emits, pure-Emits, >>=-Emits}
use judge_it.Execution.Types.{
  ExecutionConfig, TestCase, ExecutionResult, CompileConfig, LanguageConfig,
}

-- The files that a batch uses in its box, of which the source has a name of its own.
pub data BoxFile (source : Text) : Text → Type 0 where
  source_file : BoxFile source source
  executable : BoxFile source (text "solution")
  input : BoxFile source (text "input.txt")
  output : BoxFile source (text "output.txt")
  errors : BoxFile source (text "error.txt")
  compile_errors : BoxFile source (text "compile_error.txt")

-- One of these files of the box at a path, and a meta file of the box.
abbrev pub InBox : Text → Text → Text → Type 0
InBox path source file = (name : Text) × BoxFile source name × (file ≡ in_box path name)

abbrev pub MetaOf : ℕ → Text → Type 0
MetaOf box file = (time : ℕ) × (file ≡ meta_path box time)

-- A command of a batch between the two ends of its box: it starts no box and cleans none, what it
-- compiles or runs is in that box, and the files that it writes, reads, makes executable or removes
-- are files of that box or its meta file.
pub Inside : ℕ → Text → Text → Command → Type 0
Inside box path source (init b) = ⊥
Inside box path source (cleanup b) = ⊥
Inside box path source (compile b time wall_time cmd) = b ≡ box
Inside box path source (run args) = (args.box_id ≡ box) × MetaOf box args.meta
Inside box path source (write_file file content) = InBox path source file
Inside box path source (read_file file) = InBox path source file
Inside box path source (chmod_x file) = InBox path source file
Inside box path source (cat file) = InBox path source file ⊎ MetaOf box file
Inside box path source (rm_f file) = MetaOf box file

module _ (box : ℕ) (path source : Text) where
  compile-Inside :
      (time wall_time : ℕ) (cmd : Text) → Inside box path source (compile box time wall_time cmd)
  unfolding Inside
  compile-Inside time wall_time cmd = refl

  run-Inside :
      (lang : LanguageConfig) (test : TestCase) (config : ExecutionConfig) (time : ℕ)
      → Inside box path source (run (run_args box lang source test config (meta_path box time)))
  unfolding Inside
  run-Inside lang test config time = (refl, (time, refl))

  write_file-Inside :
      (name content : Text)
      → BoxFile source name
      → Inside box path source (write_file (in_box path name) content)
  unfolding Inside
  write_file-Inside name content h = (name, h, refl)

  read_file-Inside :
      (name : Text) → BoxFile source name → Inside box path source (read_file (in_box path name))
  unfolding Inside
  read_file-Inside name h = (name, h, refl)

  chmod_x-Inside :
      (name : Text) → BoxFile source name → Inside box path source (chmod_x (in_box path name))
  unfolding Inside
  chmod_x-Inside name h = (name, h, refl)

  cat-Inside : (name : Text) → BoxFile source name → Inside box path source (cat (in_box path name))
  unfolding Inside
  cat-Inside name h = inl (name, h, refl)

  cat-meta : (time : ℕ) → Inside box path source (cat (meta_path box time))
  unfolding Inside
  cat-meta time = inr (time, refl)

  rm_f-meta : (time : ℕ) → Inside box path source (rm_f (meta_path box time))
  unfolding Inside
  rm_f-meta time = (time, refl)

module _ (host : Host) (box : ℕ) (path source : Text) where
  ignore-Inside :
      (c : Command)
      → Inside box path source c
      → Emits (Inside box path source) (ignore (exec host c))
  ignore-Inside c h = search (emits, h)

  compile_source-Inside :
      (config : CompileConfig)
      → Emits (Inside box path source) (compile_source host box source config path)
  unfolding compile_source
  compile_source-Inside config =
      search (emits, compile-Inside, read_file-Inside, compile_errors) depth 10

  read_box_file-Inside :
      (name : Text)
      → BoxFile source name
      → Emits (Inside box path source) (read_box_file host path name)
  unfolding read_box_file
  read_box_file-Inside name h = search (emits, cat-Inside, h) depth 8

  read_meta-Inside :
      (time : ℕ) → Emits (Inside box path source) (read_meta host (meta_path box time))
  unfolding read_meta
  read_meta-Inside time = search (emits, cat-meta) depth 8

  run_test_case-Inside :
      (lang : LanguageConfig) (test : TestCase) (config : ExecutionConfig)
      → Emits (Inside box path source) (run_test_case host box lang source test config path)
  unfolding run_test_case
  run_test_case-Inside lang test config =
      search
        (
          emits, read_meta-Inside, read_box_file-Inside, ignore-Inside, write_file-Inside,
          run-Inside, rm_f-meta, input, output, errors,
        )
        depth 14

  run_all-Inside :
      (lang : LanguageConfig) (config : ExecutionConfig) (tests : List TestCase)
      → Emits (Inside box path source) (run_all host box lang source config path tests)
  unfolding run_all
  run_all-Inside lang config [] = search emits
  run_all-Inside lang config (test ∷ tests) =
      >>=-Emits (Inside box path source) _ _ (run_test_case-Inside lang test config) λ result.
        >>=-Emits (Inside box path source) _ _ (run_all-Inside lang config tests)
          λ rest. pure-Emits (Inside box path source) _

  make_executable-Inside :
      (error : Option Text) → Emits (Inside box path source) (make_executable host path error)
  unfolding make_executable
  make_executable-Inside none = search (emits, ignore-Inside, chmod_x-Inside, executable) depth 8
  make_executable-Inside (some e) = search emits

  compile_if_needed-Inside :
      (config : Option CompileConfig)
      → Emits (Inside box path source) (compile_if_needed host box source path config)
  unfolding compile_if_needed
  compile_if_needed-Inside none = search emits
  compile_if_needed-Inside (some config) =
      search (emits, compile_source-Inside, make_executable-Inside) depth 8

  validate_code-Inside : (code : Text) → Emits (Inside box path source) (validate_code code)
  unfolding validate_code
  validate_code-Inside code = go (leb (length code) 65536)
    where
      go : (b : Bool) → Emits (Inside box path source) (guard_size b)
      go true = search emits
      go false = search emits

  run_compiled-Inside :
      (lang : LanguageConfig) (config : ExecutionConfig) (tests : List TestCase)
      (error : Option Text)
      → Emits (Inside box path source) (run_compiled host box lang source config path tests error)
  unfolding run_compiled
  run_compiled-Inside lang config tests none = run_all-Inside lang config tests
  run_compiled-Inside lang config tests (some error) = search emits

-- The name of the source in its box.
abbrev pub source_of : LanguageConfig → Text
source_of lang = text "solution." ++ lang.extension

module _ (host : Host) (box : ℕ) where
  run_batch-Inside :
      (code : Text) (lang : LanguageConfig) (tests : List TestCase) (config : ExecutionConfig)
      (path : Text)
      → Emits (Inside box path (source_of lang)) (run_batch host box code lang tests config path)
  unfolding run_batch
  run_batch-Inside code lang tests config path =
      search
        (
          emits, validate_code-Inside, write_file-Inside, source_file, compile_if_needed-Inside,
          run_compiled-Inside,
        )
        depth 12

  pub attempt-Inside :
      (code : Text) (lang : LanguageConfig) (tests : List TestCase) (config : ExecutionConfig)
      (path : Text) (recover : Text → List ExecutionResult)
      → Emits
          (Inside box path (source_of lang))
          (try_catch (run_batch host box code lang tests config path) (λ e. pure (recover e)))
  attempt-Inside code lang tests config path recover = search (emits, run_batch-Inside) depth 8
