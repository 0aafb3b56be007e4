-- ===== src/Judge/Verdict/Rows.antt =====
-- The rows and the maxima that are recorded of a submission.
use judge_it.Prelude.{ℕ, ◌≡◌, ◌≤◌, refl, List, [], ◌∷◌, arith, length, All, map}
use judge_it.Prelude.Numbers.{round_ms, round_mb}
use judge_it.Execution.Types.{ExecutionResult, TestCase}
use judge_it.Judge.Verdict.{
  Verdict, SubmissionResult, Figures, maximum, time_or_zero, memory_or_zero, collect,
}

-- A row is within the figures of its submission.
abbrev pub Within : Figures → SubmissionResult → Type 0
Within f s =
    (round_ms (time_or_zero s.execution_time) ≤ f.execution_time)
    × (round_mb (memory_or_zero s.memory_used) ≤ f.memory_used)

collect-ge :
    (id t m : ℕ) (vs : List Verdict) (rs : List ExecutionResult) (ts : List TestCase)
    → (t ≤ (collect id t m vs rs ts).execution_time) × (m ≤ (collect id t m vs rs ts).memory_used)
unfolding collect
collect-ge id t m (v ∷ vs) (r ∷ rs) (c ∷ ts) = ground (
  arith,
  collect-ge id (maximum t (round_ms (time_or_zero r.time)))
      (maximum m (round_mb (memory_or_zero r.memory))) vs rs ts,
)
collect-ge id t m _ _ _ = omega arith

-- There is one row for each verdict, in order, under the submission's id, and no row's time or
-- memory is above what is recorded for the whole submission.
pub collect_lem :
    (id t m : ℕ) (vs : List Verdict) (rs : List ExecutionResult) (ts : List TestCase)
    → length vs ≤ length rs
    → length vs ≤ length ts
    → let f = collect id t m vs rs ts in
      (map (λ s. s.verdict) f.rows ≡ vs)
      × All (λ s. s.submission_id ≡ id) f.rows
      × All (Within f) f.rows
unfolding collect
collect_lem id t m [] rs ts h k = (refl, tt, tt)
collect_lem id t m (v ∷ vs) [] ts h k = absurd (omega arith)
collect_lem id t m (v ∷ vs) (r ∷ rs) [] h k = absurd (omega arith)
collect_lem id t m (v ∷ vs) (r ∷ rs) (c ∷ ts) h k =
    let t' = maximum t (round_ms (time_or_zero r.time)) in
    let m' = maximum m (round_mb (memory_or_zero r.memory)) in
    let (verdicts, ids, within) = collect_lem id t' m' vs rs ts (omega arith) (omega arith) in
    let grows = collect-ge id t' m' vs rs ts in
    (rw verdicts, (refl, ids), ((ground (arith, grows), ground (arith, grows)), within))
