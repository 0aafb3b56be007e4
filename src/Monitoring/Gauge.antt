-- ===== src/Monitoring/Gauge.antt =====
-- The gauge of src/common/middlewares/monitoringMiddleware.ts counts the requests in flight.
use judge_it.Prelude.{
  ℕ, zero, suc, ◌+◌, ◌≡◌, refl, List, [], ◌∷◌, ◌++◌, some, arith, take_at, Option-cases, inl, inr,
  if◌then◌else◌,
}
use judge_it.Monitoring.{
  Labels, labels_beq, Monitor, Event, begins, finishes, new, begin, before_query, finish, step, run,
}

-- How many requests of a label have a listener.
abbrev pub open_requests : Labels → List Labels → ℕ
open_requests k [] = 0
open_requests k (l ∷ ls) = (if labels_beq k l then 1 else 0) + open_requests k ls

open_requests-append :
    (k : Labels) (xs ys : List Labels)
    → open_requests k (xs ++ ys) ≡ open_requests k xs + open_requests k ys
open_requests-append k [] ys = omega arith
open_requests-append k (x ∷ xs) ys = omega (arith, open_requests-append k xs ys)

open_requests-take_at :
    (k : Labels) (i : ℕ) (ls : List Labels) {l : Labels} {rest : List Labels}
    → take_at i ls ≡ some (l, rest)
    → open_requests k ls ≡ (if labels_beq k l then 1 else 0) + open_requests k rest
open_requests-take_at k i [] h = cc
open_requests-take_at k zero (x ∷ xs) h = ground arith
open_requests-take_at k (suc i) (x ∷ xs) h = elim (Option-cases (take_at i xs)) [
  | inl e ↦ ground arith
  | inr (p, e) ↦ ground (arith, open_requests-take_at k i xs e)
]

abbrev IsCounted : Monitor → Type 0
IsCounted m = (k : Labels) → m.metrics.in_flight k ≡ open_requests k m.listening

step-IsCounted : (m : Monitor) (e : Event) → IsCounted m → IsCounted (step m e)
unfolding step begin finish
step-IsCounted m (begins method url) v k = ground (
  arith,
  v k,
  open_requests-append k m.listening (record { method = method; route = before_query url } ∷ []),
)
step-IsCounted m (finishes i status) v k = elim (Option-cases (take_at i m.listening)) [
  | inl e ↦ rw e (v k)
  | inr ((l, rest), e) ↦ rw e (ground (arith, v k, open_requests-take_at k i m.listening e))
]

run-IsCounted : (m : Monitor) (es : List Event) → IsCounted m → IsCounted (run m es)
unfolding run
run-IsCounted m [] v = v
run-IsCounted m (e ∷ es) v = run-IsCounted (step m e) es (step-IsCounted m e v)

-- In whatever order requests come in and end, the gauge of a method and a route is the number of
-- those requests that have come in and not ended.
gauge_counts :
    (es : List Event) (k : Labels)
    → (run new es).metrics.in_flight k ≡ open_requests k (run new es).listening
unfolding new
gauge_counts es k = run-IsCounted new es (λ l. refl) k
