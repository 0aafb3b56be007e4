-- ===== src/Worker/OffsetTracker/Pending.antt =====
-- What the offset tracker holds of a partition after each operation, and what it lets commit.
use judge_it.Prelude.{
  ℕ, ◌≤◌, ◌≡◌, refl, ◌⊎◌, inl, inr, List, [], ◌∷◌, true, none, some, if◌then◌else◌, ◌==◌, ltb,
  arith, Option-cases, ==_iff,
}
use judge_it.Prelude.Eq.{nat_eq}
use judge_it.Prelude.Int.{ℤ, pos, ◌<ℤ◌}
use judge_it.Prelude.Maps.{get, put, add, remove, has, get-put}
use judge_it.Worker.OffsetTracker.{
  Tracker, get_or_empty, or_minus_one, track, complete, settle, lowest,
}

-- The offsets of a partition that are tracked and not complete.
abbrev pub pending : Tracker → ℕ → List ℕ
pending t p = get_or_empty (get p t.in_flight)

-- The offset committed last, -1 before the first commit.
abbrev pub last_committed : Tracker → ℕ → ℤ
last_committed t p = or_minus_one (get p t.committed)

pub pending-track :
    (t : Tracker) (p o q : ℕ)
    → pending (track t p o) q ≡ (if p == q then add o (pending t q) else pending t q)
unfolding track
pending-track t p o q = ground (arith, get-put q p (add o (pending t p)) t.in_flight)

settle_in_flight :
    (t : Tracker) (p o : ℕ) (set : List ℕ) → (settle t p o set).0.in_flight ≡ t.in_flight
unfolding settle
settle_in_flight t p o [] = refl
settle_in_flight t p o (v ∷ vs) = ground arith

pub pending-complete :
    (t : Tracker) (p o q : ℕ)
    → pending (complete t p o).0 q ≡ (if p == q then remove o (pending t q) else pending t q)
unfolding complete
pending-complete t p o q = elim (Option-cases (get p t.in_flight)) [
  | inl e ↦ ground (arith, ==_iff p q)
  | inr (set, e) ↦
      let after : Tracker = record t { in_flight = put p (remove o set) t.in_flight } in
      rw (e, complete)
        (ground (
          arith,
          settle_in_flight after p o (remove o set),
          get-put q p (remove o set) t.in_flight,
        ))
]

pub lowest-le_seed : (m : ℕ) (vs : List ℕ) → lowest m vs ≤ m
unfolding lowest
lowest-le_seed m [] = omega arith
lowest-le_seed m (v ∷ vs) = ground (arith, lowest-le_seed (if ltb v m then v else m) vs)

lowest-le : (x m : ℕ) (vs : List ℕ) → has x vs ≡ true → lowest m vs ≤ x
unfolding lowest
lowest-le x m [] h = cc
lowest-le x m (v ∷ vs) h =
    ground (
      arith,
      lowest-le x (if ltb v m then v else m) vs,
      lowest-le_seed (if ltb v m then v else m) vs,
    )

-- Every offset of the set is above what may be committed.
abbrev Above : ℤ → List ℕ → Type 0
Above s set = (x : ℕ) → has x set ≡ true → s <ℤ pos x

settle-Above :
    (t : Tracker) (p o : ℕ) (set : List ℕ) {s : ℤ} → (settle t p o set).1 ≡ some s → Above s set
unfolding settle
settle-Above t p o [] h x m = cc
settle-Above t p o (v ∷ vs) h x m = ground (arith, lowest-le x v vs, lowest-le_seed v vs)

-- On a tracked partition `complete` is `settle` of what stays in flight; on another it does nothing.
pub complete-cases :
    (t : Tracker) (p o : ℕ)
    → ((get p t.in_flight ≡ none) × (complete t p o ≡ (t, none)))
      ⊎ ((set : List ℕ) × (get p t.in_flight ≡ some set)
          × (complete t p o
              ≡ settle
                  (record t { in_flight = put p (remove o set) t.in_flight })
                  p
                  o
                  (remove o set)))
unfolding complete
complete-cases t p o = elim (Option-cases (get p t.in_flight)) [
  | inl e ↦ inl (e, rw (e, complete))
  | inr (set, e) ↦ inr (set, e, rw (e, complete))
]

-- When `complete` answers that offsets up to `s` may be committed, every offset of the partition
-- that is still in flight is above `s`.
pub complete-Above :
    (t : Tracker) (p o : ℕ) {s : ℤ}
    → (complete t p o).1 ≡ some s
    → (x : ℕ) → has x (pending (complete t p o).0 p) ≡ true
    → s <ℤ pos x
complete-Above t p o {s} h x m = elim (complete-cases t p o) [
  | inl (e, c) ↦ ground (arith, c)
  | inr (set, e, c) ↦
      settle-Above _ p o (remove o set) (rw c at h) x (ground (arith, pending-complete t p o p))
]

-- Every offset in flight is above the one committed last: so it is when the broker hands offsets
-- out in increasing order, from the committed one on.
abbrev pub IsAhead : Tracker → ℕ → Type 0
IsAhead t p = (x : ℕ) → has x (pending t p) ≡ true → last_committed t p <ℤ pos x

settle-advances :
    (t : Tracker) (p o : ℕ) (set : List ℕ) {s : ℤ}
    → last_committed t p <ℤ pos o
    → (settle t p o set).1 ≡ some s
    → (last_committed t p <ℤ s) × (last_committed (settle t p o set).0 p ≡ s)
unfolding settle
settle-advances t p o [] ahead h = ground (arith, get-put p p (pos o) t.committed, ==_iff p p)
settle-advances t p o (v ∷ vs) {s} ahead h = ground (arith, get-put p p s t.committed, ==_iff p p)

-- While the offsets in flight are ahead, completing one of them moves the commit forward only: the
-- answered offset is above the one committed before, it is the one committed now, and the offsets
-- that stay in flight are ahead again.
pub complete_advances :
    (t : Tracker) (p o : ℕ) {s : ℤ}
    → IsAhead t p
    → has o (pending t p) ≡ true
    → (complete t p o).1 ≡ some s
    → (last_committed t p <ℤ s)
      × (last_committed (complete t p o).0 p ≡ s)
      × IsAhead (complete t p o).0 p
complete_advances t p o {s} ahead held h = elim (complete-cases t p o) [
  | inl (e, c) ↦ ground (arith, c)
  | inr (set, e, c) ↦
      let (grows, now) = settle-advances _ p o (remove o set) (ahead o held) (rw c at h) in
      (grows, rw c now, λ x m. rw (c, now) (complete-Above t p o h x m))
]
