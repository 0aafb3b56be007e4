-- ===== src/Judge/Verdict.antt =====
-- The verdicts of src/judge/judge.service.ts: `validateResults`, and the part of `judgeSubmission`
-- that makes the final verdict and the figures of the submission from them.
pub mod Accepted
pub mod Rows
pub mod Uncompiled
use judge_it.Prelude.{ℕ, Bool, true, false, List, [], ◌∷◌, Option, none, some, if◌then◌else◌, ltb}
use judge_it.Prelude.Eq.{text_beq}
use judge_it.Prelude.Int.{ℤ, pos}
use judge_it.Prelude.Numbers.{Decimal, zero_decimal, round_ms, round_mb}
use judge_it.Prelude.Results.{Result, done, thrown, ◌>>=◌}
use judge_it.Prelude.Text.{Text, text}
use judge_it.Execution.Types.{Status, ok, tle, mle, re, ce, se, ExecutionResult, TestCase}
use judge_it.Judge.Normalize.{normalize_output_strict}

-- The strings that a verdict can be.
pub data Verdict : Type 0 where
  acc wa : Verdict
  failed : Status → Verdict

abbrev pub status_text : Status → Text
status_text ok = text "OK"
status_text tle = text "TLE"
status_text mle = text "MLE"
status_text re = text "RE"
status_text ce = text "CE"
status_text se = text "SE"

abbrev pub verdict_text : Verdict → Text
verdict_text acc = text "ACC"
verdict_text wa = text "WA"
verdict_text (failed s) = status_text s

-- What the judge can throw: reading a field of `undefined`, or what a service that it calls throws.
pub data Error : Type 0 where
  type_error : Error
  service : Text → Error

abbrev pub is_ok : Status → Bool
is_ok ok = true
is_ok _ = false

-- `output!`: a missing output is normalised to the empty text, as an empty one is.
abbrev pub or_empty : Option Text → Text
or_empty none = []
or_empty (some t) = t

abbrev pub compare_outputs : ExecutionResult → TestCase → Verdict
compare_outputs r t =
    let expected = normalize_output_strict (or_empty t.output) in
    let actual = normalize_output_strict (or_empty r.output) in
    if text_beq expected actual then acc else wa

abbrev pub cons_result : Verdict → Result Error (List Verdict) → Result Error (List Verdict)
cons_result v (done vs) = done (v ∷ vs)
cons_result v (thrown e) = thrown e

-- The loop stops at the first result that is not OK. A result with no test case throws: the log
-- line reads `tests[i].name` in one branch, and the comparison reads `tests[i].output` in the other.
unfoldable pub validate_results : List ExecutionResult → List TestCase → Result Error (List Verdict)
validate_results [] tests = done []
validate_results (r ∷ rs) [] = thrown type_error
validate_results (r ∷ rs) (t ∷ ts) =
    let rest = validate_results rs ts in
    if is_ok r.status then cons_result (compare_outputs r t) rest else done (failed r.status ∷ [])

abbrev pub is_acc : Verdict → Bool
is_acc acc = true
is_acc _ = false

-- The first verdict that is not 'ACC', else 'ACC'.
unfoldable pub final_verdict : List Verdict → Verdict
final_verdict [] = acc
final_verdict (v ∷ vs) = let rest = final_verdict vs in if is_acc v then rest else v

pub record SubmissionResult : Type 0 where
  pub submission_id : ℕ
  pub testcase_name : Text
  pub execution_time : Option Decimal
  pub memory_used : Option ℤ
  pub verdict : Verdict

-- `execution_time` is in milliseconds, `memory_used` in hundredths of a megabyte.
pub record Figures : Type 0 where
  pub execution_time : ℕ
  pub memory_used : ℕ
  pub rows : List SubmissionResult

abbrev pub maximum : ℕ → ℕ → ℕ
maximum a b = if ltb a b then b else a

abbrev pub time_or_zero : Option Decimal → Decimal
time_or_zero none = zero_decimal
time_or_zero (some t) = t

abbrev pub memory_or_zero : Option ℤ → ℤ
memory_or_zero none = pos 0
memory_or_zero (some m) = m

abbrev pub row : ℕ → Verdict → ExecutionResult → TestCase → SubmissionResult
row submission_id v r t = record {
  submission_id = submission_id;
  testcase_name = t.name;
  execution_time = r.time;
  memory_used = r.memory;
  verdict = v;
}

-- The second loop of `judgeSubmission`, over the verdicts, with the maxima so far. There is a result
-- and a test case for each verdict, so the other clauses are not met.
unfoldable pub collect : ℕ → ℕ → ℕ → List Verdict → List ExecutionResult → List TestCase → Figures
collect id time memory (v ∷ vs) (r ∷ rs) (t ∷ ts) =
    let rest =
      collect id (maximum time (round_ms (time_or_zero r.time)))
        (maximum memory (round_mb (memory_or_zero r.memory))) vs rs ts in
    record rest { rows = row id v r t ∷ rest.rows }
collect id time memory _ _ _ = record { execution_time = time; memory_used = memory; rows = [] }

pub record Report : Type 0 where
  pub verdicts : List Verdict
  pub final : Verdict
  pub figures : Figures

unfoldable pub report : ℕ → List ExecutionResult → List TestCase → Result Error Report
report id results tests = do
  verdicts ← validate_results results tests
  done (record {
    verdicts = verdicts;
    final = final_verdict verdicts;
    figures = collect id 0 0 verdicts results tests;
  })
