-- ===== src/Worker/OffsetTracker/History.antt =====
-- Histories of the offset tracker: what a commit says of every message delivered so far.
use judge_it.Prelude.{
  ℕ, ◌<◌, ◌≡◌, refl, List, [], ◌∷◌, ◌++◌, ◌||◌, true, some, if◌then◌else◌, ◌==◌, arith, ==_iff, inl,
  inr,
}
use judge_it.Prelude.Eq.{nat_eq}
use judge_it.Prelude.Int.{ℤ, pos, ◌≤ℤ◌}
use judge_it.Prelude.Maps.{get, has, has-add, has-remove}
use judge_it.Worker.OffsetTracker.{Tracker, new, track, complete, settle}
use judge_it.Worker.OffsetTracker.Pending.{
  pending, pending-track, pending-complete, complete-Above, complete-cases,
}

pub data Event : Type 0 where
  tracks : ℕ → ℕ → Event
  completes : ℕ → ℕ → Event

unfoldable pub step : Tracker → Event → Tracker
step t (tracks p o) = track t p o
step t (completes p o) = (complete t p o).0

unfoldable pub run : Tracker → List Event → Tracker
run t [] = t
run t (e ∷ es) = run (step t e) es

pub run-append : (t : Tracker) (xs ys : List Event) → run t (xs ++ ys) ≡ run (run t xs) ys
unfolding run
run-append t [] ys = refl
run-append t (x ∷ xs) ys = run-append (step t x) xs ys

-- The offsets of a partition that were tracked, and those that were completed.
abbrev pub delivered : ℕ → List Event → List ℕ
delivered p [] = []
delivered p (tracks q o ∷ es) = let rest = delivered p es in if q == p then o ∷ rest else rest
delivered p (completes q o ∷ es) = delivered p es

abbrev pub finished : ℕ → List Event → List ℕ
finished p [] = []
finished p (tracks q o ∷ es) = finished p es
finished p (completes q o ∷ es) = let rest = finished p es in if q == p then o ∷ rest else rest

pub finished-append :
    (p : ℕ) (xs ys : List Event) → finished p (xs ++ ys) ≡ finished p xs ++ finished p ys
finished-append p [] ys = refl
finished-append p (tracks q o ∷ xs) ys = finished-append p xs ys
finished-append p (completes q o ∷ xs) ys = ground (arith, finished-append p xs ys)

-- Nothing that was delivered is lost sight of before it is complete.
covered :
    (t : Tracker) (p x : ℕ) (es : List Event)
    → (has x (pending t p) || has x (delivered p es)) ≡ true
    → (has x (pending (run t es) p) || has x (finished p es)) ≡ true
unfolding run step
covered t p x [] h = h
covered t p x (tracks q o ∷ es) h =
    covered (step t (tracks q o)) p x es
      (ground (arith, pending-track t q o p, has-add x o (pending t p)))
covered t p x (completes q o ∷ es) h = ground (
  arith,
  covered (complete t q o).0 p x es,
  pending-complete t q o p,
  has-remove x o (pending t p),
)

-- After any history, when completing `o` answers that offsets up to `s` may be committed, every
-- offset up to `s` that was ever delivered on the partition has been completed.
pub commit_covers :
    (es : List Event) (p o : ℕ) {s : ℤ}
    → (complete (run new es) p o).1 ≡ some s
    → (x : ℕ) → has x (delivered p es) ≡ true
    → pos x ≤ℤ s
    → has x (o ∷ finished p es) ≡ true
commit_covers es p o h x d le = ground (
  arith,
  covered new p x es,
  pending-complete (run new es) p o p,
  has-remove x o (pending (run new es) p),
  complete-Above (run new es) p o h x,
  ==_iff p p,
)

pending_one :
    (t : Tracker) (p a : ℕ)
    → pending t p ≡ a ∷ []
    → ((complete t p a).1 ≡ some (pos a)) × (pending (complete t p a).0 p ≡ [])
unfolding settle
pending_one t p a h = elim (complete-cases t p a) [
  | inl (e, c) ↦ ground arith
  | inr (set, e, c) ↦
      let one : set ≡ a ∷ [] = ground arith in
      (ground (arith, c, one, ==_iff a a), ground (arith, pending-complete t p a p, ==_iff p p))
]

-- If two offsets `a < b` are in flight and `b` completes before `a`, the second completion lets only
-- the offsets up to `a` be committed, though nothing is in flight any more.
pub commit_lags :
    (t : Tracker) (p a b : ℕ)
    → get p t.in_flight ≡ some (a ∷ b ∷ [])
    → a < b
    → let t' = (complete t p b).0 in
      ((complete t' p a).1 ≡ some (pos a)) × (pending (complete t' p a).0 p ≡ [])
commit_lags t p a b e lt =
    pending_one (complete t p b).0 p a (ground (arith, pending-complete t p b p, ==_iff p p))
