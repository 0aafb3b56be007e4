-- ===== src/Execution/Sandbox.antt =====
-- The host that src/execution/execution.service.ts talks to, and code that talks to it. What a
-- command answers may depend on all the commands before it: the host is a parameter.
pub mod Emits
use judge_it.Prelude.{ℕ, List, [], ◌∷◌, ◌++◌, Option, none, some}
use judge_it.Prelude.Results.{Result, done, thrown}
use judge_it.Prelude.Text.{Text}

-- The arguments of `isolate --run`; `exec_timeout` is the timeout of `execAsync` in milliseconds.
pub record RunArgs : Type 0 where
  pub box_id : ℕ
  pub time : ℕ
  pub wall_time : ℕ
  pub mem : ℕ
  pub stack : Option ℕ
  pub processes : Option ℕ
  pub usr_dir : Text
  pub meta : Text
  pub shell_cmd : Text
  pub exec_timeout : ℕ

-- Calls of `execAsync`, `writeFile` and `readFile`. The options of the compile command that are
-- written out in the source (`--mem=512000` and so on) are left to the constructor.
pub data Command : Type 0 where
  init cleanup : ℕ → Command
  -- box, time, wall time, shell command
  compile : ℕ → ℕ → ℕ → Text → Command
  run : RunArgs → Command
  chmod_x cat rm_f read_file : Text → Command
  write_file : Text → Text → Command

-- `exec` answers with the standard output, or throws an error, given as the text that it prints as;
-- `now` is `Date.now()`.
pub record Host : Type 0 where
  pub exec : List Command → Command → Result Text Text
  pub now : List Command → ℕ

-- Code that throws a text or returns, and extends the list of commands that were given.
abbrev pub M : Type 0 → Type 0
M A = List Command → Result Text A × List Command

unfoldable pub pure : {A : Type 0} → A → M A
pure a log = (done a, log)

unfoldable pub throw : {A : Type 0} → Text → M A
throw e log = (thrown e, log)

abbrev pub continue :
    {A B : Type 0} → Result Text A × List Command → (A → M B) → Result Text B × List Command
continue (done a, log) f = f a log
continue (thrown e, log) f = (thrown e, log)

infixl 5 ◌>>=◌ ◌>>◌
unfoldable pub ◌>>=◌ : {A B : Type 0} → M A → (A → M B) → M B
◌>>=◌ m f log = continue (m log) f

abbrev pub ◌>>◌ : {A B : Type 0} → M A → M B → M B
m >> k = m >>= λ _. k

abbrev pub handled :
    {A : Type 0} → Result Text A × List Command → (Text → M A) → Result Text A × List Command
handled (done a, log) h = (done a, log)
handled (thrown e, log) h = h e log

-- `try { … } catch (e) { … }`.
unfoldable pub try_catch : {A : Type 0} → M A → (Text → M A) → M A
try_catch m h log = handled (m log) h

abbrev pub after :
    {A : Type 0}
    → Result Text A
    → Result Text (Unit {0}) × List Command
    → Result Text A × List Command
after r (done u, log) = (r, log)
after r (thrown e, log) = (thrown e, log)

-- `try { … } finally { … }`.
unfoldable pub try_finally : {A : Type 0} → M A → M (Unit {0}) → M A
try_finally m last log = let (r, log') = m log in after r (last log')

unfoldable pub exec : Host → Command → M Text
exec host c log = (host.exec log c, log ++ c ∷ [])

unfoldable pub now : Host → M ℕ
now host log = (done (host.now log), log)
