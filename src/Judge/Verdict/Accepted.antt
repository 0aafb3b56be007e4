-- ===== src/Judge/Verdict/Accepted.antt =====
-- When a submission is accepted, and what is recorded of it.
use mathlib.Core.Bool.{false≢true}
use judge_it.Prelude.{
  false, ◌≡◌, ◌≢◌, ◌↔◌, ◌⊎◌, inl, inr, refl, ◌≤◌, true, List, [], ◌∷◌, arith, length, Bool-cases,
  sym, ◌∙◌,
}
use judge_it.Prelude.Eq.{text_beq, text_beq_iff}
use judge_it.Prelude.Results.{done, Result-cases}
use judge_it.Execution.Types.{Status, ok, tle, mle, re, ce, se, ExecutionResult, TestCase}
use judge_it.Prelude.Text.{text}
use judge_it.Judge.Normalize.{normalize_output_strict}
use judge_it.Judge.Normalize.Words.{words, normalize_eq_iff}
use judge_it.Judge.Verdict.{
  Verdict, acc, wa, failed, is_ok, or_empty, compare_outputs, validate_results, final_verdict,
  verdict_text,
}

-- Every result is OK, there is a test case for it, and its output has the words of the expected one.
abbrev pub AllPass : List ExecutionResult → List TestCase → Type 0
AllPass [] ts = Unit
AllPass (r ∷ rs) [] = ⊥
AllPass (r ∷ rs) (t ∷ ts) =
    (r.status ≡ ok) × (words (or_empty r.output) ≡ words (or_empty t.output)) × AllPass rs ts

eq-ok_of_is_ok : (s : Status) → is_ok s ≡ true → s ≡ ok
eq-ok_of_is_ok s h = ground arith

compare_outputs-cases :
    (r : ExecutionResult) (t : TestCase)
    → ((compare_outputs r t ≡ acc) × (words (or_empty r.output) ≡ words (or_empty t.output)))
      ⊎ ((compare_outputs r t ≡ wa) × (words (or_empty r.output) ≢ words (or_empty t.output)))
compare_outputs-cases r t =
    let expected = normalize_output_strict (or_empty t.output) in
    let actual = normalize_output_strict (or_empty r.output) in
    elim (Bool-cases (text_beq expected actual)) [
      | inl same ↦ inl (
        rw same,
        sym (
            (normalize_eq_iff (or_empty t.output) (or_empty r.output)).0
              ((text_beq_iff expected actual).0 same)),
      )
      | inr differ ↦ inr (
        rw differ,
        λ e. false≢true (
            sym differ
            ∙ (text_beq_iff expected actual).1
                ((normalize_eq_iff (or_empty t.output) (or_empty r.output)).1 (sym e))),
      )
    ]

-- With a test case for each result no verdict is missing for want of one: the verdicts are there,
-- and no more of them than results.
pub validate_results_total :
    (rs : List ExecutionResult) (ts : List TestCase)
    → length rs ≤ length ts
    → (vs : List Verdict) × (validate_results rs ts ≡ done vs) × (length vs ≤ length rs)
unfolding validate_results
validate_results_total [] ts h = ([], refl, omega arith)
validate_results_total (r ∷ rs) [] h = absurd (omega arith)
validate_results_total (r ∷ rs) (t ∷ ts) h =
    let (vs, e, le) = validate_results_total rs ts (omega arith) in
    elim (Bool-cases (is_ok r.status)) [
      | inl passes ↦ rw (passes, e) (compare_outputs r t ∷ vs, refl, omega arith)
      | inr fails ↦ rw fails (failed r.status ∷ [], refl, omega arith)
    ]

-- The final verdict is 'ACC' exactly when every result is OK and every output has the words of the
-- expected one.
pub final-acc_iff :
    (rs : List ExecutionResult) (ts : List TestCase) {vs : List Verdict}
    → validate_results rs ts ≡ done vs
    → (final_verdict vs ≡ acc) ↔ AllPass rs ts
unfolding validate_results final_verdict
final-acc_iff [] ts h = ground arith
final-acc_iff (r ∷ rs) [] h = cc
final-acc_iff (r ∷ rs) (t ∷ ts) {vs} h = elim (Result-cases (validate_results rs ts)) [
  | inl (us, e) ↦ ground (arith, final-acc_iff rs ts e, compare_outputs-cases r t)
  | inr (x, e) ↦ ground arith
]

other_text :
    (v : Verdict)
    → text_beq (verdict_text v) (text "ACC") ≡ false
    → v ≢ acc
    → (verdict_text v ≡ text "ACC") ↔ (v ≡ acc)
other_text v other isnt = (
  λ h. absurd (false≢true (sym other ∙ (text_beq_iff (verdict_text v) (text "ACC")).1 h)),
  λ h. absurd (isnt h),
)

-- The text 'ACC' stands for that verdict alone.
pub verdict_text-acc_iff : (v : Verdict) → (verdict_text v ≡ text "ACC") ↔ (v ≡ acc)
verdict_text-acc_iff acc = (λ h. refl, λ h. refl)
verdict_text-acc_iff wa = other_text wa refl (λ h. cc)
verdict_text-acc_iff (failed ok) = other_text (failed ok) refl (λ h. cc)
verdict_text-acc_iff (failed tle) = other_text (failed tle) refl (λ h. cc)
verdict_text-acc_iff (failed mle) = other_text (failed mle) refl (λ h. cc)
verdict_text-acc_iff (failed re) = other_text (failed re) refl (λ h. cc)
verdict_text-acc_iff (failed ce) = other_text (failed ce) refl (λ h. cc)
verdict_text-acc_iff (failed se) = other_text (failed se) refl (λ h. cc)
