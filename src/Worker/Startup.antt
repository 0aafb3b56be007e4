-- ===== src/Worker/Startup.antt =====
-- src/worker/worker-manager.service.ts: `onModuleInit`, the start of the consumer with its retries.
-- The queue's answers to the attempt of each number are parameters, as a wait can change them.
use judge_it.Prelude.{
  ℕ, zero, suc, ◌+◌, ◌*◌, ◌≤◌, ◌≡◌, ◌↔◌, ◌⊎◌, ap, ◌∙◌, ==_iff, false, refl, List, [], ◌∷◌,
  Bool-cases, inl, inr, arith, if◌then◌else◌, ◌==◌,
}
use judge_it.Prelude.Results.{Result, done, thrown, ◌>>◌}
use judge_it.Prelude.Text.{Text}

pub record Answers : Type 0 where
  pub connect : Result Text (Unit {0})
  pub subscribe : ℕ → Result Text (Unit {0})
  pub run : ℕ → Result Text (Unit {0})

abbrev pub max_retries : ℕ
max_retries = 5

-- The outcome, and the waits in milliseconds.
abbrev pub Outcome : Type 0
Outcome = Result Text (Unit {0}) × List ℕ

abbrev pub wait_then : ℕ → Outcome → Outcome
wait_then ms (r, waits) = (r, ms ∷ waits)

-- The `catch` of an attempt, given what the loop does after the wait.
abbrev pub on_failure : ℕ → Result Text (Unit {0}) → Outcome → Outcome
on_failure attempt (done u) rest = (done tt, [])
on_failure attempt (thrown err) rest =
    if attempt == max_retries then (thrown err, []) else wait_then (2000 * attempt) rest

-- The loop from an attempt on; `left` bounds the passes that are left.
unfoldable pub retry : Answers → ℕ → ℕ → Outcome
retry a zero attempt = (done tt, [])
retry a (suc left) attempt =
    on_failure attempt (a.subscribe attempt >> a.run attempt) (retry a left (suc attempt))

abbrev pub connected : Answers → Result Text (Unit {0}) → Outcome
connected a (done u) = retry a max_retries 1
connected a (thrown err) = (thrown err, [])

unfoldable pub on_module_init : Answers → Outcome
on_module_init a = connected a a.connect

-- An attempt of the loop that both calls let through.
abbrev pub Starts : Answers → ℕ → Type 0
Starts a k = (a.subscribe k >> a.run k) ≡ done tt

abbrev pub total : List ℕ → ℕ
total [] = 0
total (x ∷ xs) = x + total xs

on_failure_iff :
    (attempt : ℕ) (r : Result Text (Unit {0})) (rest : Outcome)
    → ((on_failure attempt r rest).0 ≡ done tt)
      ↔ ((r ≡ done tt) ⊎ (((attempt == max_retries) ≡ false) × (rest.0 ≡ done tt)))
on_failure_iff attempt (done u) rest = (λ h. inl refl, λ h. refl)
on_failure_iff attempt (thrown err) (r, waits) = ground arith

left_pos : (left attempt : ℕ) → suc left + attempt ≡ 6 → (attempt == max_retries) ≡ false → 1 ≤ left
left_pos left attempt h k = ground arith

later :
    (left attempt k : ℕ)
    → suc left + attempt ≡ 6
    → attempt ≤ k
    → k ≤ 5
    → (attempt == k) ≡ false
    → ((attempt == max_retries) ≡ false) × (1 ≤ left) × (suc attempt ≤ k)
later left attempt k h lo hi ne = ground arith

retry_iff :
    (a : Answers) (left attempt : ℕ)
    → left + attempt ≡ 6
    → 1 ≤ left
    → ((retry a left attempt).0 ≡ done tt) ↔ ((k : ℕ) × (attempt ≤ k) × (k ≤ 5) × Starts a k)
unfolding retry
retry_iff a zero attempt h pos = absurd (omega arith)
retry_iff a (suc left) attempt h pos =
    let split =
      on_failure_iff attempt (a.subscribe attempt >> a.run attempt) (retry a left (suc attempt)) in
    (
      λ started. elim (split.0 started) [
        | inl now ↦ (attempt, omega arith, omega arith, now)
        | inr (more, rest) ↦
            (let (k, lo, hi, it) =
                (retry_iff a left (suc attempt) (omega arith) (left_pos left attempt h more)).0
                  rest in
              (k, omega arith, hi, it))
      ],
      λ found. elim (Bool-cases (attempt == found.0)) [
        | inl here ↦
            split.1
              (inl (ap (λ i. a.subscribe i >> a.run i) ((==_iff attempt found.0).0 here) ∙ found.3))
        | inr there ↦
            (let (more, pos', lo) = later left attempt found.0 h found.1 found.2 there in
              split.1 (
                inr (
                  more,
                  (retry_iff a left (suc attempt) (omega arith) pos').1
                      (found.0, lo, found.2, found.3),
                )))
      ],
    )

-- The waits of `left` passes from an attempt on come to at most this.
abbrev budget : ℕ → ℕ → ℕ
budget zero attempt = 0
budget (suc left) attempt =
    (if attempt == max_retries then 0 else 2000 * attempt) + budget left (suc attempt)

on_failure-total :
    (attempt : ℕ) (r : Result Text (Unit {0})) (rest : Outcome) {n : ℕ}
    → total rest.1 ≤ n
    → total (on_failure attempt r rest).1
      ≤ (if attempt == max_retries then 0 else 2000 * attempt) + n
on_failure-total attempt (done u) rest h = omega arith
on_failure-total attempt (thrown err) (r, waits) h = ground arith

retry-total :
    (a : Answers) (left attempt : ℕ) → total (retry a left attempt).1 ≤ budget left attempt
unfolding retry
retry-total a zero attempt = omega arith
retry-total a (suc left) attempt =
    on_failure-total attempt (a.subscribe attempt >> a.run attempt) (retry a left (suc attempt))
      (retry-total a left (suc attempt))

connected_iff :
    (a : Answers) (r : Result Text (Unit {0}))
    → (((connected a r).0 ≡ done tt) ↔ ((r ≡ done tt) × ((k : ℕ) × (1 ≤ k) × (k ≤ 5) × Starts a k)))
      × (total (connected a r).1 ≤ 20000)
connected_iff a (done u) =
    let loop = retry_iff a max_retries 1 (omega arith) (omega arith) in
    ((λ h. (refl, loop.0 h), λ h. loop.1 h.1), retry-total a max_retries 1)
connected_iff a (thrown err) = ((λ h. cc, λ h. cc), omega arith)

-- The start returns exactly when the connection and one of the five attempts come through, and
-- its waits come to 20 seconds at most.
pub on_module_init_iff :
    (a : Answers)
    → (((on_module_init a).0 ≡ done tt)
        ↔ ((a.connect ≡ done tt) × ((k : ℕ) × (1 ≤ k) × (k ≤ 5) × Starts a k)))
      × (total (on_module_init a).1 ≤ 20000)
unfolding on_module_init
on_module_init_iff a = connected_iff a a.connect
