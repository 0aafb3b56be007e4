-- ===== src/Worker/Semaphore/Trace.antt =====
-- Histories of the semaphore: which caller holds which box, and what every history keeps.
use judge_it.Prelude.{
  ℕ, ◌+◌, ◌≤◌, ◌≡◌, refl, ◌⊎◌, inl, inr, List, [], ◌∷◌, ◌++◌, Option, none, some, arith, length,
  length-append, length-range_from, count, count-append, count-range_from-le_one, range_from,
  take_at, Option-cases,
}
use judge_it.Worker.Semaphore.{Semaphore, Acquired, resolved, pending, new, acquire, release}
use judge_it.Worker.Semaphore.Boxes.{boxes, count-boxes-append, count-take_at}
use judge_it.Worker.Semaphore.Cases.{acquire-cases, release-cases}

-- The semaphore with the boxes that its callers hold, oldest grant first.
pub record Holding : Type 0 where
  pub sem : Semaphore ℕ
  pub held : List (ℕ × ℕ)

-- A caller acquires, or the holder at an index of `held` releases.
pub data Call : Type 0 where
  acquires : ℕ → Call
  releases : ℕ → Call

abbrev grant : ℕ → Acquired → List (ℕ × ℕ) → List (ℕ × ℕ)
grant caller (resolved (some box)) held = held ++ (caller, box) ∷ []
grant caller (resolved none) held = held
grant caller pending held = held

abbrev hand : Option (ℕ × ℕ) → List (ℕ × ℕ) → List (ℕ × ℕ)
hand none held = held
hand (some g) held = held ++ g ∷ []

abbrev give_back : Holding → Option ((ℕ × ℕ) × List (ℕ × ℕ)) → Holding
give_back h none = h
give_back h (some (g, rest)) =
    let (s, woken) = release h.sem g.1 in record { sem = s; held = hand woken rest }

unfoldable pub step : Holding → Call → Holding
step h (acquires caller) =
    let (s, got) = acquire h.sem caller in record { sem = s; held = grant caller got h.held }
step h (releases i) = give_back h (take_at i h.held)

unfoldable pub run : Holding → List Call → Holding
run h [] = h
run h (c ∷ cs) = run (step h c) cs

abbrev pub start : ℕ → Holding
start workers = record { sem = new workers; held = [] }

-- `count` is the number of free boxes; callers wait only when none is free; and each of the
-- `workers` boxes is free or held, exactly once.
pub record Inv (workers : ℕ) (h : Holding) : Type 0 where
  pub counted : h.sem.count ≡ length h.sem.available_boxes
  pub waiting : (h.sem.count ≡ 0) ⊎ (h.sem.queue ≡ [])
  pub conserved :
      (b : ℕ)
      → count b h.sem.available_boxes + count b (boxes h.held) ≡ count b (range_from 0 workers)

acquire-Inv : (w : ℕ) (h : Holding) (caller : ℕ) → Inv w h → Inv w (step h (acquires caller))
unfolding step
acquire-Inv w h caller v = elim (acquire-cases h.sem caller v.counted) [
  | inl (box, rest, free, e) ↦ rw e (record {
    counted = ground arith;
    waiting = ground arith;
    conserved =
        λ b. ground (arith, v.conserved b, count-boxes-append b h.held ((caller, box) ∷ []));
  })
  | inr (full, e) ↦
      rw e (record { counted = v.counted; waiting = inl full; conserved = v.conserved })
]

release-Inv : (w : ℕ) (h : Holding) (i : ℕ) → Inv w h → Inv w (step h (releases i))
unfolding step
release-Inv w h i v = elim (Option-cases (take_at i h.held)) [
  | inl e ↦ rw e v
  | inr ((g, rest), e) ↦ rw e (elim (release-cases h.sem g.1) [
    | inl (idle, r) ↦ rw r (record {
      counted = omega (arith, v.counted, length-append {0} h.sem.available_boxes (g.1 ∷ []));
      waiting = inr idle;
      conserved = λ b. omega (
        arith,
        v.conserved b,
        count-take_at b i h.held e,
        count-append b h.sem.available_boxes (g.1 ∷ []),
      );
    })
    | inr (next, others, waits, r) ↦ rw r (record {
      counted = v.counted;
      waiting = ground arith;
      conserved = λ b. omega (
        arith,
        v.conserved b,
        count-take_at b i h.held e,
        count-boxes-append b rest ((next, g.1) ∷ []),
      );
    })
  ])
]

pub start-Inv : (w : ℕ) → Inv w (start w)
unfolding new
start-Inv w = record {
  counted = omega (arith, length-range_from 0 w);
  waiting = inr refl;
  conserved = λ b. omega arith;
}

pub step-Inv : (w : ℕ) (h : Holding) (c : Call) → Inv w h → Inv w (step h c)
step-Inv w h (acquires caller) v = acquire-Inv w h caller v
step-Inv w h (releases i) v = release-Inv w h i v

pub run-Inv : (w : ℕ) (h : Holding) (cs : List Call) → Inv w h → Inv w (run h cs)
unfolding run
run-Inv w h [] v = v
run-Inv w h (c ∷ cs) v = run-Inv w (step h c) cs (step-Inv w h c v)

-- In every history of a semaphore for `w` boxes, no box is held by two callers at once, a box that
-- is held is not free, every box is one of 0 .. w - 1, and none of those is ever lost.
pub boxes_exclusive :
    (w : ℕ) (cs : List Call) (b : ℕ)
    → let h = run (start w) cs in
      (count b h.sem.available_boxes + count b (boxes h.held) ≡ count b (range_from 0 w))
      × (count b h.sem.available_boxes + count b (boxes h.held) ≤ 1)
boxes_exclusive w cs b =
    let c = (run-Inv w (start w) cs (start-Inv w)).conserved b in
    (c, omega (arith, c, count-range_from-le_one 0 w b))
