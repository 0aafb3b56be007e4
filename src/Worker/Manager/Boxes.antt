-- ===== src/Worker/Manager/Boxes.antt =====
-- Where the sandbox boxes are while the worker manager runs.
use judge_it.Prelude.{
  ℕ, ◌+◌, ◌≤◌, ◌≡◌, refl, inl, inr, ◌⊎◌, List, [], ◌∷◌, Option, none, some, arith, count,
  count-append, count-range_from-le_one, range_from, length, length-append, length-range_from,
  take_at, Option-cases, Bool, Bool-cases, not, ◌&&◌, ◌==◌,
}
use judge_it.Worker.OffsetTracker.{Tracker}
use judge_it.Worker.Semaphore.{Semaphore, acquire, release, available}
use judge_it.Worker.Semaphore.Boxes.{boxes, count-boxes-append, count-take_at, length-take_at}
use judge_it.Worker.Semaphore.Cases.{acquire-cases, release-cases}
use judge_it.Worker.Semaphore as Semaphore
use judge_it.Worker.Manager.{
  Message, Manager, Effect, Event, delivers, begins, finishes, new, pause_if_full, acquire_box,
  deliver, process, begin, release_box, resume_if_paused, finish, step, run,
}

-- A box is free, or belongs to a delivery that was granted it, to a task that runs or to a task that
-- was dropped.
abbrev pub places : ℕ → Manager → ℕ
places b m =
    count b m.semaphore.available_boxes
    + count b (boxes m.granted)
    + count b (boxes m.running)
    + count b (boxes m.dropped)

abbrev pub total : Manager → ℕ
total m =
    length m.semaphore.available_boxes + length m.granted + length m.running + length m.dropped

pub record Inv (w : ℕ) (m : Manager) : Type 0 where
  pub counted : m.semaphore.count ≡ length m.semaphore.available_boxes
  pub waiting : (m.semaphore.count ≡ 0) ⊎ (m.semaphore.queue ≡ [])
  pub conserved : (b : ℕ) → places b m ≡ count b (range_from 0 w)
  pub all_there : total m ≡ w

pub new-Inv : (w : ℕ) → Inv w (new w)
unfolding new Semaphore.new
new-Inv w = record {
  counted = omega (arith, length-range_from 0 w);
  waiting = inr refl;
  conserved = λ b. omega arith;
  all_there = omega (arith, length-range_from 0 w);
}

acquire_box-Inv : (w : ℕ) (m : Manager) (msg : Message) → Inv w m → Inv w (acquire_box m msg)
acquire_box-Inv w m msg v = elim (acquire-cases m.semaphore msg v.counted) [
  | inl (box, rest, free, e) ↦ rw e (record {
    counted = ground arith;
    waiting = ground arith;
    conserved =
        λ b. ground (arith, v.conserved b, count-boxes-append b m.granted ((msg, box) ∷ []));
    all_there = ground (arith, length-append {0} m.granted ((msg, box) ∷ []));
  })
  | inr (full, e) ↦ rw e (record {
    counted = v.counted;
    waiting = inl full;
    conserved = v.conserved;
    all_there = v.all_there;
  })
]

release_box-Inv :
    (w : ℕ) (m : Manager) (msg : Message) (box i : ℕ) {rest : List (Message × ℕ)}
    → take_at i m.running ≡ some ((msg, box), rest)
    → Inv w m
    → Inv w (release_box (record m { running = rest }) box)
release_box-Inv w m msg box i {rest} e v = elim (release-cases m.semaphore box) [
  | inl (idle, r) ↦ rw r (record {
    counted = omega (arith, v.counted, length-append {0} m.semaphore.available_boxes (box ∷ []));
    waiting = inr idle;
    conserved = λ b. omega (
      arith,
      v.conserved b,
      count-take_at b i m.running e,
      count-append b m.semaphore.available_boxes (box ∷ []),
    );
    all_there = omega (
      arith,
      v.all_there,
      length-take_at i m.running e,
      length-append {0} m.semaphore.available_boxes (box ∷ []),
    );
  })
  | inr (next, others, waits, r) ↦ rw r (record {
    counted = v.counted;
    waiting = ground arith;
    conserved = λ b. omega (
      arith,
      v.conserved b,
      count-take_at b i m.running e,
      count-boxes-append b m.granted ((next, box) ∷ []),
    );
    all_there = omega (
      arith,
      v.all_there,
      length-take_at i m.running e,
      length-append {0} m.granted ((next, box) ∷ []),
    );
  })
]

-- The flag, the tracker and the effects do not matter.
pub repack :
    (w : ℕ) (m : Manager) (paused : Bool) (t : Tracker) (es : List Effect)
    → Inv w m
    → Inv w (record m { is_paused = paused; offset_tracker = t; effects = es })
repack w m paused t es v = record {
  counted = v.counted;
  waiting = v.waiting;
  conserved = v.conserved;
  all_there = v.all_there;
}

pub pause_if_full-Inv : (w : ℕ) (m : Manager) → Inv w m → Inv w (pause_if_full m)
pause_if_full-Inv w m v = elim (Bool-cases (not m.is_paused && available m.semaphore == 0)) [
  | inl e ↦ rw e (repack w m _ m.offset_tracker _ v)
  | inr e ↦ rw e v
]

resume_if_paused-Inv : (w : ℕ) (m : Manager) (p : ℕ) → Inv w m → Inv w (resume_if_paused m p)
resume_if_paused-Inv w m p v = elim (Bool-cases m.is_paused) [
  | inl e ↦ rw e (repack w m _ m.offset_tracker _ v)
  | inr e ↦ simp e v
]

process-Inv :
    (w : ℕ) (m : Manager) (i : ℕ) (msg : Message) (box : ℕ) (rest : List (Message × ℕ))
    (es : List Effect) (value : Option (List ℕ))
    → take_at i m.granted ≡ some ((msg, box), rest)
    → Inv w m
    → Inv w (process (record m { granted = rest; effects = es }) msg box value)
process-Inv w m i msg box rest es none e v = record {
  counted = v.counted;
  waiting = v.waiting;
  conserved = λ b. omega (arith, v.conserved b, count-take_at b i m.granted e);
  all_there = omega (arith, v.all_there, length-take_at i m.granted e);
}
process-Inv w m i msg box rest es (some value) e v = record {
  counted = v.counted;
  waiting = v.waiting;
  conserved = λ b. omega (
    arith,
    v.conserved b,
    count-take_at b i m.granted e,
    count-boxes-append b m.running ((msg, box) ∷ []),
  );
  all_there = omega (
    arith,
    v.all_there,
    length-take_at i m.granted e,
    length-append {0} m.running ((msg, box) ∷ []),
  );
}

pub step-Inv : (w : ℕ) (m : Manager) (e : Event) → Inv w m → Inv w (step m e)
unfolding step deliver begin finish
step-Inv w m (delivers msg) v =
    acquire_box-Inv w _ msg (pause_if_full-Inv w _ (repack w m m.is_paused _ m.effects v))
step-Inv w m (begins i) v = elim (Option-cases (take_at i m.granted)) [
  | inl e ↦ rw e v
  | inr (((msg, box), rest), e) ↦ rw e (process-Inv w m i msg box rest _ msg.value e v)
]
step-Inv w m (finishes i) v = elim (Option-cases (take_at i m.running)) [
  | inl e ↦ rw e v
  | inr (((msg, box), rest), e) ↦ rw e (
      repack w _ _ _ _ (resume_if_paused-Inv w _ msg.partition (release_box-Inv w m msg box i e v)))
]

pub run-Inv : (w : ℕ) (m : Manager) (es : List Event) → Inv w m → Inv w (run m es)
unfolding run
run-Inv w m [] v = v
run-Inv w m (e ∷ es) v = run-Inv w (step m e) es (step-Inv w m e v)

-- Whatever is delivered and in whatever order tasks start and end, at most `w` tasks run at once,
-- and a box belongs to one of them at most: it is not free, granted or dropped at the same time.
pub running_isolated :
    (w : ℕ) (es : List Event) (b : ℕ)
    → let m = run (new w) es in (length m.running ≤ w) × (places b m ≤ 1)
running_isolated w es b =
    let v = run-Inv w (new w) es (new-Inv w) in
    (omega (arith, v.all_there), omega (arith, v.conserved b, count-range_from-le_one 0 w b))
