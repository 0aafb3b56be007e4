-- ===== src/Execution/Meta.antt =====
-- The meta file of `isolate`: `parseMetaFile` and `buildResultFromMeta` of
-- src/execution/execution.service.ts.
pub mod Fields
pub mod Outcome
use judge_it.Prelude.{
  ℕ, Bool, true, false, not, ◌&&◌, List, [], ◌∷◌, ◌++◌, Option, none, some, if◌then◌else◌, ◌==◌,
}
use judge_it.Prelude.Eq.{text_eq, text_beq}
use judge_it.Prelude.Int.{ℤ, pos, negsuc}
use judge_it.Prelude.Maps.{Map, get, put}
use judge_it.Prelude.Numbers.{Decimal, zero_decimal, parse_int, parse_float, show_int}
use judge_it.Prelude.Text.{Text, text, is_nil, trim, includes}
use judge_it.Execution.Types.{IsolateMeta, ExecutionResult, ok, tle, mle, re, se}

abbrev pub push_line : ℕ → List Text → List Text
push_line c [] = (c ∷ []) ∷ []
push_line c (l ∷ ls) = (c ∷ l) ∷ ls

-- `split('\n')`.
unfoldable pub split_lines : Text → List Text
split_lines [] = [] ∷ []
split_lines (c ∷ s) = let rest = split_lines s in if c == b'\n' then [] ∷ rest else push_line c rest

abbrev pub cons_first : ℕ → Option (Text × Text) → Option (Text × Text)
cons_first c none = none
cons_first c (some (key, value)) = some (c ∷ key, value)

-- The parts of a line before and after its first colon.
unfoldable pub at_colon : Text → Option (Text × Text)
at_colon [] = none
at_colon (c ∷ s) = let rest = at_colon s in if c == b':' then some ([], s) else cons_first c rest

-- A line whose first colon stands at a place above 0 sets a field.
abbrev pub set_field : Map Text Text → Option (Text × Text) → Map Text Text
set_field raw none = raw
set_field raw (some (key, value)) = if is_nil key then raw else put (trim key) (trim value) raw

unfoldable pub read_lines : Map Text Text → List Text → Map Text Text
read_lines raw [] = raw
read_lines raw (line ∷ lines) = read_lines (set_field raw (at_colon line)) lines

unfoldable pub raw_fields : Text → Map Text Text
raw_fields content = read_lines [] (split_lines content)

-- `a || b` on a text that may be missing, and on numbers that may be `NaN`.
abbrev pub text_or : Option Text → Text → Text
text_or none d = d
text_or (some t) d = if is_nil t then d else t

abbrev pub is_zero : ℤ → Bool
is_zero (pos n) = n == 0
is_zero (negsuc n) = false

abbrev pub int_or : Option ℤ → ℤ → ℤ
int_or none d = d
int_or (some z) d = if is_zero z then d else z

abbrev pub decimal_or_zero : Option Decimal → Decimal
decimal_or_zero none = zero_decimal
decimal_or_zero (some d) = d

-- `parseInt(raw[key])`, which is `NaN` for a key that is missing.
abbrev pub parsed {ℓ} : {A : Type ℓ} → (Text → Option A) → Option Text → Option A
parsed parse none = none
parsed parse (some t) = parse t

abbrev pub equals : Option Text → Text → Bool
equals none t = false
equals (some s) t = text_beq s t

unfoldable pub meta_of : Map Text Text → IsolateMeta
meta_of raw = record {
  status =
      text_or (get (text "status") raw)
        (if equals (get (text "exitcode") raw) (text "0") then text "OK" else text "RE");
  time = decimal_or_zero (parsed parse_float (get (text "time") raw));
  wall_time = decimal_or_zero (parsed parse_float (get (text "time-wall") raw));
  memory =
      int_or (parsed parse_int (get (text "max-rss") raw))
        (int_or (parsed parse_int (get (text "cg-mem") raw)) (pos 0));
  exit_code = int_or (parsed parse_int (get (text "exitcode") raw)) (pos 0);
  signal =
      int_or (parsed parse_int (get (text "exitsig") raw))
        (int_or (parsed parse_int (get (text "killed") raw)) (pos 0));
  message = text_or (get (text "message") raw) [];
}

unfoldable pub parse_meta_file : Text → IsolateMeta
parse_meta_file content = meta_of (raw_fields content)

-- `getSignalName`.
abbrev pub known_signal : ℕ → Option Text
known_signal n =
    if n == 6
    then some (text "SIGABRT (Aborted)")
    else (if n == 8
        then some (text "SIGFPE (Floating point exception)")
        else (if n == 9
            then some (text "SIGKILL (Killed)")
            else (if n == 11
                then some (text "SIGSEGV (Segmentation fault)")
                else (if n == 13
                    then some (text "SIGPIPE (Broken pipe)")
                    else (if n == 24
                        then some (text "SIGXCPU (CPU time limit exceeded)")
                        else none)))))

abbrev pub signal_known : ℤ → Option Text
signal_known (pos n) = known_signal n
signal_known (negsuc n) = none

unfoldable pub get_signal_name : ℤ → Text
get_signal_name signal = text_or (signal_known signal) (text "Signal " ++ show_int signal)

abbrev pub or_undefined : Text → Option Text
or_undefined t = if is_nil t then none else some t

abbrev pub is_int : ℤ → ℕ → Bool
is_int (pos n) k = n == k
is_int (negsuc n) k = false

-- The object that the `switch` starts from.
abbrev pub base_result : IsolateMeta → Text → ExecutionResult
base_result meta output = record {
  test_case_name = none;
  success = false;
  output = some (trim output);
  error = none;
  stderr = none;
  time = some meta.time;
  wall_time = some meta.wall_time;
  memory = some meta.memory;
  exit_code = some meta.exit_code;
  signal = none;
  status = re;
}

-- The cases of the `switch`.
unfoldable pub on_exit : IsolateMeta → Text → ExecutionResult → ExecutionResult
on_exit meta stderr base =
    if is_int meta.exit_code 0 then record base { success = true; status = ok } else record base {
      error = some (text_or (some stderr) (text "Exit code: " ++ show_int meta.exit_code));
      status = re;
      stderr = or_undefined stderr;
    }

unfoldable pub on_timeout : ExecutionResult → ExecutionResult
on_timeout base = record base { error = some (text "Time Limit Exceeded"); status = tle }

unfoldable pub on_signal : IsolateMeta → Text → ExecutionResult → ExecutionResult
on_signal meta stderr base =
    if is_int meta.signal 9 && includes (text "memory") meta.message
    then record base { error = some (text "Memory Limit Exceeded"); status = mle }
    else record base {
      error = some (text "Runtime Error: " ++ get_signal_name meta.signal);
      status = re;
      signal = some meta.signal;
      stderr = or_undefined stderr;
    }

unfoldable pub on_failure : Text → ExecutionResult → ExecutionResult
on_failure error base = record base { error = some error; status = se }

unfoldable pub build_result_from_meta : IsolateMeta → Text → Text → ExecutionResult
build_result_from_meta meta output stderr =
    let base = base_result meta output in
    if text_beq meta.status (text "OK")
    then on_exit meta stderr base
    else (if text_beq meta.status (text "RE")
        then on_exit meta stderr base
        else (if text_beq meta.status (text "TO")
            then on_timeout base
            else (if text_beq meta.status (text "SG")
                then on_signal meta stderr base
                else (if text_beq meta.status (text "XX")
                    then on_failure (text "Internal sandbox error") base
                    else on_failure (text_or (some meta.message) (text "Unknown error")) base))))
