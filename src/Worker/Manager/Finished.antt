-- ===== src/Worker/Manager/Finished.antt =====
-- No message is lost inside the worker manager: what was delivered is held until its task has finished.
use judge_it.Prelude.{
  ℕ, zero, suc, ◌≡◌, refl, sym, ap, ◌∙◌, inl, inr, List, [], ◌∷◌, ◌++◌, Option, none, some, Bool,
  true, false, ◌&&◌, ◌||◌, not, arith, take_at, Option-cases, Bool-cases, if◌then◌else◌, ◌==◌,
}
use judge_it.Prelude.Bools.{or_left}
use judge_it.Prelude.Maps.{has, has-append}
use judge_it.Worker.OffsetTracker.{track}
use judge_it.Worker.Semaphore.{available}
use judge_it.Worker.Semaphore.Cases.{acquire-cases, release-cases}
use judge_it.Worker.Manager.{
  Message, Manager, Event, delivers, begins, finishes, deliver, begin, finish, process,
  pause_if_full, acquire_box, release_box, resume_if_paused, step, run,
}
use judge_it.Worker.Manager.Boxes.{Inv, repack, pause_if_full-Inv, step-Inv}
use judge_it.Worker.Manager.Commits.{
  delivered_offsets, delivered_offsets-append, finished_offsets, finished_offsets-append, trace,
}

module _ (p x : ℕ) where
  -- The message of a partition and an offset.
  abbrev is_it : Message → Bool
  is_it msg = msg.partition == p && msg.offset == x

  abbrev in_queue : List Message → Bool
  in_queue [] = false
  in_queue (msg ∷ ms) = is_it msg || in_queue ms

  abbrev in_pairs : List (Message × ℕ) → Bool
  in_pairs [] = false
  in_pairs ((msg, box) ∷ gs) = is_it msg || in_pairs gs

  -- It waits for a box, has one, is judged, or was dropped.
  abbrev pub held : Manager → Bool
  held m =
      in_queue m.semaphore.queue
      || (in_pairs m.granted || (in_pairs m.running || in_pairs m.dropped))

  in_queue-append : (xs ys : List Message) → in_queue (xs ++ ys) ≡ (in_queue xs || in_queue ys)
  in_queue-append [] ys = refl
  in_queue-append (y ∷ xs) ys = ground (arith, in_queue-append xs ys)

  in_pairs-append :
      (xs ys : List (Message × ℕ)) → in_pairs (xs ++ ys) ≡ (in_pairs xs || in_pairs ys)
  in_pairs-append [] ys = refl
  in_pairs-append ((msg, box) ∷ xs) ys = ground (arith, in_pairs-append xs ys)

  in_pairs-take_at :
      (i : ℕ) (gs : List (Message × ℕ)) {msg : Message} {box : ℕ} {rest : List (Message × ℕ)}
      → take_at i gs ≡ some ((msg, box), rest)
      → in_pairs gs ≡ (is_it msg || in_pairs rest)
  in_pairs-take_at i [] h = cc
  in_pairs-take_at zero (g ∷ gs) h = ground arith
  in_pairs-take_at (suc i) (g ∷ gs) h = elim (Option-cases (take_at i gs)) [
    | inl e ↦ ground arith
    | inr (((other, b), more), e) ↦ ground (arith, in_pairs-take_at i gs e)
  ]

  acquire_box-held :
      (w : ℕ) (m : Manager) (msg : Message)
      → Inv w m
      → (held m || is_it msg) ≡ true
      → held (acquire_box m msg) ≡ true
  acquire_box-held w m msg v h = elim (acquire-cases m.semaphore msg v.counted) [
    | inl (box, rest, free, e) ↦
        rw e (ground (arith, h, in_pairs-append m.granted ((msg, box) ∷ [])))
    | inr (full, e) ↦ rw e (ground (arith, h, in_queue-append m.semaphore.queue (msg ∷ [])))
  ]

  pause_if_full-held : (m : Manager) → held (pause_if_full m) ≡ held m
  pause_if_full-held m = elim (Bool-cases (not m.is_paused && available m.semaphore == 0)) [
    | inl e ↦ rw e refl
    | inr e ↦ rw e refl
  ]

  resume_if_paused-held : (m : Manager) (q : ℕ) → held (resume_if_paused m q) ≡ held m
  resume_if_paused-held m q = elim (Bool-cases m.is_paused) [
    | inl e ↦ rw e refl
    | inr e ↦ simp e refl
  ]

  process-held :
      (m : Manager) (msg : Message) (box : ℕ) (value : Option (List ℕ))
      → (held m || is_it msg) ≡ true
      → held (process m msg box value) ≡ true
  process-held m msg box none h = ground (arith, h)
  process-held m msg box (some value) h =
      ground (arith, h, in_pairs-append m.running ((msg, box) ∷ []))

  release_box-held : (m : Manager) (box : ℕ) → held (release_box m box) ≡ held m
  release_box-held m box = elim (release-cases m.semaphore box) [
    | inl (idle, r) ↦ rw r refl
    | inr (next, others, waits, r) ↦
        rw r (ground (arith, waits, in_pairs-append m.granted ((next, box) ∷ [])))
  ]

  one_offset : (q o : ℕ) → has x (if q == p then o ∷ [] else []) ≡ (q == p && o == x)
  one_offset q o = ground arith

  -- A step holds what was held or is delivered by it, but for what it finishes.
  step-held :
      (w : ℕ) (m : Manager) (e : Event)
      → Inv w m
      → (held m || has x (delivered_offsets p (e ∷ []))) ≡ true
      → (held (step m e) || has x (finished_offsets m p (e ∷ []))) ≡ true
  unfolding step deliver begin finish trace
  step-held w m (delivers msg) v h =
      let tracked : Manager = record m {
        offset_tracker = track m.offset_tracker msg.partition msg.offset;
      } in
      or_left (held (step m (delivers msg))) _ (
        acquire_box-held w (pause_if_full tracked) msg
          (pause_if_full-Inv w tracked (repack w m m.is_paused _ m.effects v))
          (ap (λ b. b || is_it msg) (pause_if_full-held tracked)
            ∙ ap (λ b. held m || b) (sym (one_offset msg.partition msg.offset))
            ∙ h))
  step-held w m (begins i) v h = elim (Option-cases (take_at i m.granted)) [
    | inl e ↦ rw e h
    | inr (((msg, box), rest), e) ↦ rw e (
        or_left _ _ (
          process-held (record m { granted = rest; effects = _ }) msg box msg.value
            (ground (arith, h, in_pairs-take_at i m.granted e))))
  ]
  step-held w m (finishes i) v h = elim (Option-cases (take_at i m.running)) [
    | inl e ↦ rw e h
    | inr (((msg, box), rest), e) ↦
        let ended : Manager = record m { running = rest } in
        rw e (
          ap (λ b. b || has x (if msg.partition == p then msg.offset ∷ [] else []))
            (resume_if_paused-held (release_box ended box) msg.partition
              ∙ release_box-held ended box)
          ∙ ap (λ b. held ended || b) (one_offset msg.partition msg.offset)
          ∙ ground (arith, h, in_pairs-take_at i m.running e))
  ]

  -- The same over any events.
  pub run-held :
      (w : ℕ) (m : Manager) (es : List Event)
      → Inv w m
      → (held m || has x (delivered_offsets p es)) ≡ true
      → (held (run m es) || has x (finished_offsets m p es)) ≡ true
  unfolding run trace
  run-held w m [] v h = h
  run-held w m (e ∷ es) v h = ground (
    arith,
    h,
    delivered_offsets-append p (e ∷ []) es,
    has-append x (delivered_offsets p (e ∷ [])) (delivered_offsets p es),
    finished_offsets-append m p (e ∷ []) es,
    has-append x (finished_offsets m p (e ∷ [])) (finished_offsets (step m e) p es),
    step-held w m e v,
    run-held w (step m e) es (step-Inv w m e v),
  )
