-- ===== src/Worker/Restarts.antt =====
-- Runs of the worker of src/worker/worker-manager.service.ts, one after another: each run begins with
-- nothing in memory, where the broker's stored position says, and ends after any events, be it by a
-- crash. The broker is not part of the program: it hands the messages of a partition over in order
-- from its stored position, and what it stores is a position that a run has told it to commit. A
-- commit that fails is one that it does not store.
use judge_it.Prelude.{
  ℕ, suc, ◌≤◌, ◌<◌, ◌≡◌, sym, ap, ◌∙◌, ◌⊎◌, inl, inr, Bool, true, List, [], ◌∷◌, ◌++◌, some, arith,
  take_at, All, if◌then◌else◌, ◌==◌, subst,
}
use judge_it.Prelude.Int.{ℤ, pos, ◌≤ℤ◌, ◌<ℤ◌}
use judge_it.Prelude.Maps.{has, has-append}
use judge_it.Worker.OffsetTracker.{complete}
use judge_it.Worker.OffsetTracker.Pending.{pending}
use judge_it.Worker.OffsetTracker.Reach.{pending-delivered, complete-le}
use judge_it.Worker.Manager.{Message, Event, delivers, begins, finishes, next_offset, new, run}
use judge_it.Worker.Manager.Boxes.{new-Inv}
use judge_it.Worker.Manager.Carried.{Delivers, Taken, take_at-All, run-Carried, new-Carried}
use judge_it.Worker.Manager.Commits.{
  trace, delivered_offsets, delivered_offsets-append, finished_offsets, finished_offsets-split,
  delivered-trace, new_tracker, commits_only_finished,
}
use judge_it.Worker.Manager.Sent.{Commits, run-Commits}

-- Offsets handed over in order from a position: none of the log between two of them is left out.
abbrev pub InOrder : (ℕ → Bool) → ℕ → List ℕ → Type 0
InOrder log from [] = Unit
InOrder log from (d ∷ ds) =
    (from ≤ d) × ((x : ℕ) → log x ≡ true → from ≤ x → d ≤ x) × InOrder log (suc d) ds

-- What a partition has behind it: the position of the first run, the position stored now, and the
-- offsets whose task went through its `finally` block.
pub data Runs (log : ℕ → Bool) (p : ℕ) : ℕ → ℕ → List ℕ → Type 0 where
  none_yet : {from : ℕ} → Runs log p from from []
  restarts :
      {from stored position : ℕ} {finished : List ℕ} (workers : ℕ) (es : List Event)
      → Runs log p from stored finished
      → InOrder log stored (delivered_offsets p es)
      → (position ≡ stored) ⊎ Commits p (pos position) (run (new workers) es).effects
      → Runs log p from position (finished ++ finished_offsets (new workers) p es)

InOrder-prefix :
    (log : ℕ → Bool) (from : ℕ) (xs ys : List ℕ) → InOrder log from (xs ++ ys) → InOrder log from xs
InOrder-prefix log from [] ys h = tt
InOrder-prefix log from (x ∷ xs) ys h = (h.0, h.1, InOrder-prefix log (suc x) xs ys h.2)

InOrder-has :
    (log : ℕ → Bool) (from : ℕ) (ds : List ℕ) (x y : ℕ)
    → InOrder log from ds
    → log x ≡ true
    → from ≤ x
    → x ≤ y
    → has y ds ≡ true
    → has x ds ≡ true
InOrder-has log from [] x y h there above le got = cc
InOrder-has log from (d ∷ ds) x y h there above le got =
    ground (arith, h.1 x there above, InOrder-has log (suc d) ds x y h.2 there)

module _ (p : ℕ) (offsets : List ℕ) where
  -- On the partition the message has one of the offsets.
  abbrev Listed : Message → Type 0
  Listed msg = msg.partition ≡ p → has msg.offset offsets ≡ true

  Listed-All :
      (es : List Event)
      → ((x : ℕ) → has x (delivered_offsets p es) ≡ true → has x offsets ≡ true)
      → All (Delivers Listed) es
  Listed-All [] sub = tt
  Listed-All (delivers msg ∷ es) sub =
      (λ e. sub msg.offset (ground arith), Listed-All es (λ x h. sub x (ground (arith, h))))
  Listed-All (begins i ∷ es) sub = (tt, Listed-All es sub)
  Listed-All (finishes i ∷ es) sub = (tt, Listed-All es sub)

-- A task that runs has a message that was delivered.
running_delivered :
    (w i p : ℕ) (es : List Event) (msg : Message) (box : ℕ) (rest : List (Message × ℕ))
    → take_at i (run (new w) es).running ≡ some ((msg, box), rest)
    → msg.partition ≡ p
    → has msg.offset (delivered_offsets p es) ≡ true
running_delivered w i p es msg box rest e same =
    let P = Listed p (delivered_offsets p es) in
    let v =
      run-Carried P w (new w) es (Listed-All p (delivered_offsets p es) es (λ x h. h)) (new-Inv w)
        (new-Carried P w) in
    let taken : P msg × All (λ g. P g.0) rest =
      subst (Taken (λ g. P g.0)) e (take_at-All (λ g. P g.0) i _ v.running) in
    taken.0 same

below : (s : ℤ) (c x y : ℕ) → pos c ≡ next_offset s → x < c → s ≤ℤ pos y → x ≤ y
below s c x y e lt le = ground arith

lies_below : (s : ℤ) (c x : ℕ) → pos c ≡ next_offset s → x < c → pos x <ℤ next_offset s
lies_below s c x e lt = ground (arith, e)

-- An answer is not above all that was delivered.
answer_reached :
    (w i p : ℕ) (es : List Event) (msg : Message) (box : ℕ) (rest : List (Message × ℕ)) {s : ℤ}
    → take_at i (run (new w) es).running ≡ some ((msg, box), rest)
    → msg.partition ≡ p
    → (complete (run (new w) es).offset_tracker msg.partition msg.offset).1 ≡ some s
    → (y : ℕ) × (has y (delivered_offsets p es) ≡ true) × (s ≤ℤ pos y)
answer_reached w i p es msg box rest e same o =
    elim (complete-le (run (new w) es).offset_tracker msg.partition msg.offset o) [
      | inl le ↦ (msg.offset, running_delivered w i p es msg box rest e same, le)
      | inr (y, held, le) ↦ (
        y,
        ap (has y) (sym (delivered-trace (new w) p es))
            ∙ pending-delivered p y (trace (new w) es) (
                ap (λ t. has y (pending t p)) (sym (new_tracker w es))
                ∙ ap (λ q. has y (pending (run (new w) es).offset_tracker q)) (sym same)
                ∙ held),
        le,
      )
    ]

found_after :
    (x o q p : ℕ) (xs later : List ℕ)
    → q ≡ p
    → has x (o ∷ xs) ≡ true
    → has x (xs ++ (if q == p then o ∷ later else later)) ≡ true
found_after x o q p xs later same h =
    ground (arith, has-append x xs (if q == p then o ∷ later else later))

-- In one run from a position, what is below a position that was committed has finished.
run_finished :
    (log : ℕ → Bool) (p w from c : ℕ) (es : List Event)
    → InOrder log from (delivered_offsets p es)
    → Commits p (pos c) (run (new w) es).effects
    → (x : ℕ) → log x ≡ true
    → from ≤ x
    → x < c
    → has x (finished_offsets (new w) p es) ≡ true
run_finished log p w from c es ordered committed x there above lt =
    elim (run-Commits (new w) es p (pos c) committed) [
      | inl before ↦ absurd (unfold new in before)
      | inr (pre, i, post, split, (msg, box, rest, s, e, o, same, position)) ↦
          let (y, got, le) = answer_reached w i p pre msg box rest e same o in
          let handed = InOrder-prefix log from (delivered_offsets p pre) _ (
            subst (InOrder log from)
              (ap (delivered_offsets p) split ∙ delivered_offsets-append p pre (finishes i ∷ post))
              ordered) in
          let given =
            InOrder-has log from (delivered_offsets p pre) x y handed there above
              (below s c x y position lt le) got in
          let done_so_far =
            (commits_only_finished w pre i msg box rest e o).1 x
              (ap (λ q. has x (delivered_offsets q pre)) same ∙ given)
              (lies_below s c x position lt) in
          let (later, all) = finished_offsets-split (new w) p pre i post msg box rest e in
          ap (λ l. has x (finished_offsets (new w) p l)) split
          ∙ ap (has x) all
          ∙ found_after x msg.offset msg.partition p (finished_offsets (new w) p pre) later same (
              ap (λ q. has x (msg.offset ∷ finished_offsets (new w) q pre)) (sym same)
              ∙ done_so_far)
    ]

-- No message is lost by a restart: after any runs of the worker, each ended after any events, every
-- message of the partition's log from the first position up to the one stored last has been through
-- a task that finished.
pub restarts_lose_nothing :
    {log : ℕ → Bool} {p from position : ℕ} {finished : List ℕ}
    → Runs log p from position finished
    → (x : ℕ) → log x ≡ true
    → from ≤ x
    → x < position
    → has x finished ≡ true
restarts_lose_nothing none_yet x there above lt = absurd (omega arith)
restarts_lose_nothing {log} {p}
      (restarts {from} {stored} {position} {finished} w es before ordered (inl same)) x there above
      lt =
    ground (
      arith,
      has-append x finished (finished_offsets (new w) p es),
      restarts_lose_nothing before x there above,
    )
restarts_lose_nothing {log} {p}
      (restarts {from} {stored} {position} {finished} w es before ordered (inr made)) x there above
      lt =
    ground (
      arith,
      has-append x finished (finished_offsets (new w) p es),
      restarts_lose_nothing before x there above,
      run_finished log p w stored position es ordered made x there,
    )
