-- ===== src/Worker/Semaphore/Fifo.antt =====
-- The order in which the semaphore serves its callers.
use mathlib.Core.List.{append_assoc, append-nil}
use judge_it.Prelude.{
  ℕ, ◌≡◌, refl, ◌∙◌, inl, inr, List, [], ◌∷◌, ◌++◌, Option, none, some, arith, take_at,
  Option-cases,
}
use judge_it.Worker.Semaphore.{Acquired, resolved, pending, new, acquire, release}
use judge_it.Worker.Semaphore.Cases.{acquire-cases, release-cases}
use judge_it.Worker.Semaphore.Trace.{
  Holding, Call, acquires, releases, step, run, start, Inv, start-Inv, step-Inv,
}

-- The callers of `acquire`, in the order of their calls.
abbrev pub arrivals : List Call → List ℕ
arrivals [] = []
arrivals (acquires caller ∷ cs) = caller ∷ arrivals cs
arrivals (releases i ∷ cs) = arrivals cs

abbrev served_now : ℕ → Acquired → List ℕ
served_now caller (resolved box) = caller ∷ []
served_now caller pending = []

abbrev woken : Option (ℕ × ℕ) → List ℕ
woken none = []
woken (some g) = g.0 ∷ []

abbrev woken_by : Holding → Option ((ℕ × ℕ) × List (ℕ × ℕ)) → List ℕ
woken_by h none = []
woken_by h (some (g, rest)) = woken (release h.sem g.1).1

-- The callers whose promise a call resolves.
abbrev pub serves : Holding → Call → List ℕ
serves h (acquires caller) = served_now caller (acquire h.sem caller).1
serves h (releases i) = woken_by h (take_at i h.held)

pub served : Holding → List Call → List ℕ
served h [] = []
served h (c ∷ cs) = serves h c ++ served (step h c) cs

serves_lem :
    (w : ℕ) (h : Holding) (c : Call)
    → Inv w h
    → h.sem.queue ++ arrivals (c ∷ []) ≡ serves h c ++ (step h c).sem.queue
unfolding step
serves_lem w h (acquires caller) v = elim (acquire-cases h.sem caller v.counted) [
  | inl (box, rest, free, e) ↦ rw e (ground (arith, v.counted, v.waiting))
  | inr (full, e) ↦ rw e
]
serves_lem w h (releases i) v = elim (Option-cases (take_at i h.held)) [
  | inl e ↦ rw e (append-nil h.sem.queue)
  | inr ((g, rest), e) ↦ rw e (elim (release-cases h.sem g.1) [
    | inl (idle, r) ↦ rw r (append-nil h.sem.queue)
    | inr (next, others, waits, r) ↦ rw r (append-nil h.sem.queue ∙ waits)
  ])
]

arrivals-cons : (c : Call) (cs : List Call) → arrivals (c ∷ cs) ≡ arrivals (c ∷ []) ++ arrivals cs
arrivals-cons (acquires caller) cs = refl
arrivals-cons (releases i) cs = refl

fifo_from :
    (w : ℕ) (h : Holding) (cs : List Call)
    → Inv w h
    → h.sem.queue ++ arrivals cs ≡ served h cs ++ (run h cs).sem.queue
unfolding run served
fifo_from w h [] v = append-nil h.sem.queue
fifo_from w h (c ∷ cs) v = rw (
  arrivals-cons c cs,
  ← append_assoc h.sem.queue,
  serves_lem w h c v,
  append_assoc (serves h c),
  append_assoc (serves h c),
  fifo_from w (step h c) cs (step-Inv w h c v),
)

-- In every history, the callers served so far, in the order in which their promises were resolved,
-- followed by those that still wait, are the callers of `acquire` in the order of their calls.
pub served_in_order :
    (w : ℕ) (cs : List Call) → arrivals cs ≡ served (start w) cs ++ (run (start w) cs).sem.queue
unfolding new
served_in_order w cs = fifo_from w (start w) cs (start-Inv w)
