-- ===== src/Worker/OffsetTracker/Reach.antt =====
-- No answer of `complete` is beyond the messages that were delivered.
use judge_it.Prelude.{ℕ, ◌≡◌, ◌⊎◌, inl, inr, List, [], ◌∷◌, ◌||◌, true, some, arith}
use judge_it.Prelude.Int.{ℤ, pos, ◌≤ℤ◌}
use judge_it.Prelude.Maps.{get, remove, has, has-add, has-remove}
use judge_it.Worker.OffsetTracker.{Tracker, new, track, complete, settle}
use judge_it.Worker.OffsetTracker.Pending.{
  pending, pending-track, pending-complete, complete-cases, lowest-le_seed,
}
use judge_it.Worker.OffsetTracker.History.{Event, tracks, completes, step, run, delivered}

-- What is in flight was so at the start, or was delivered.
pending-of :
    (t : Tracker) (p x : ℕ) (es : List Event)
    → has x (pending (run t es) p) ≡ true
    → (has x (pending t p) || has x (delivered p es)) ≡ true
unfolding run step
pending-of t p x [] h = ground arith
pending-of t p x (tracks q o ∷ es) h =
    ground
      (arith, pending-of (track t q o) p x es h, pending-track t q o p, has-add x o (pending t p))
pending-of t p x (completes q o ∷ es) h = ground (
  arith,
  pending-of (complete t q o).0 p x es h,
  pending-complete t q o p,
  has-remove x o (pending t p),
)

pub pending-delivered :
    (p x : ℕ) (es : List Event)
    → has x (pending (run new es) p) ≡ true
    → has x (delivered p es) ≡ true
unfolding get
pending-delivered p x es h = pending-of new p x es h

settle-le :
    (t : Tracker) (p o : ℕ) (set : List ℕ) {s : ℤ}
    → (settle t p o set).1 ≡ some s
    → (s ≤ℤ pos o) ⊎ ((x : ℕ) × (has x set ≡ true) × (s ≤ℤ pos x))
unfolding settle
settle-le t p o [] h = inl (ground arith)
settle-le t p o (v ∷ vs) h = inr (v, ground arith, ground (arith, lowest-le_seed v vs))

-- An answer is not above the offset that completes, or not above one that was in flight.
pub complete-le :
    (t : Tracker) (p o : ℕ) {s : ℤ}
    → (complete t p o).1 ≡ some s
    → (s ≤ℤ pos o) ⊎ ((x : ℕ) × (has x (pending t p) ≡ true) × (s ≤ℤ pos x))
complete-le t p o {s} h = elim (complete-cases t p o) [
  | inl (e, c) ↦ ground (arith, c)
  | inr (set, e, c) ↦ elim (settle-le _ p o (remove o set) (rw c at h)) [
    | inl le ↦ inl le
    | inr (x, there, le) ↦ inr (x, ground (arith, has-remove x o set, e), le)
  ]
]
