-- ===== src/Worker/Manager/Commits.antt =====
-- What the worker manager commits, against the messages delivered and the tasks finished so far.
use judge_it.Prelude.{
  ℕ, ap, ◌∙◌, ◌≡◌, refl, List, [], ◌∷◌, ◌++◌, Option, none, some, true, arith, take_at,
  Option-cases, inl, inr, if◌then◌else◌, ◌==◌,
}
use mathlib.Core.List.{append_assoc}
use judge_it.Prelude.Int.{ℤ, pos, ◌<ℤ◌, ◌≤ℤ◌}
use judge_it.Prelude.Maps.{has}
use judge_it.Worker.OffsetTracker.{complete}
use judge_it.Worker.OffsetTracker as OffsetTracker
use judge_it.Worker.OffsetTracker.History as History
use judge_it.Worker.Manager.{
  Message, Manager, Event, delivers, begins, finishes, resume, commit_offsets, commits, next_offset,
  new, deliver, begin, finish, step, run,
}

-- What an event does to the offset tracker.
abbrev completion : Option ((Message × ℕ) × List (Message × ℕ)) → List History.Event
completion none = []
completion (some ((msg, box), rest)) = History.completes msg.partition msg.offset ∷ []

abbrev tracker_events : Manager → Event → List History.Event
tracker_events m (delivers msg) = History.tracks msg.partition msg.offset ∷ []
tracker_events m (begins i) = []
tracker_events m (finishes i) = completion (take_at i m.running)

unfoldable pub trace : Manager → List Event → List History.Event
trace m [] = []
trace m (e ∷ es) = tracker_events m e ++ trace (step m e) es

step_tracker :
    (m : Manager) (e : Event)
    → (step m e).offset_tracker ≡ History.run m.offset_tracker (tracker_events m e)
unfolding step deliver begin finish History.run History.step
step_tracker m (delivers msg) = ground arith
step_tracker m (begins i) = ground arith
step_tracker m (finishes i) = elim (Option-cases (take_at i m.running)) [
  | inl e ↦ rw e
  | inr (((msg, box), rest), e) ↦ rw e (ground arith)
]

run_tracker :
    (m : Manager) (es : List Event)
    → (run m es).offset_tracker ≡ History.run m.offset_tracker (trace m es)
unfolding run trace
run_tracker m [] = unfold History.run in refl
run_tracker m (e ∷ es) = rw (History.run-append, ← step_tracker m e) (run_tracker (step m e) es)

-- The offsets of the messages delivered on a partition.
abbrev pub delivered_offsets : ℕ → List Event → List ℕ
delivered_offsets p [] = []
delivered_offsets p (delivers msg ∷ es) =
    let rest = delivered_offsets p es in if msg.partition == p then msg.offset ∷ rest else rest
delivered_offsets p (begins i ∷ es) = delivered_offsets p es
delivered_offsets p (finishes i ∷ es) = delivered_offsets p es

pub delivered_offsets-append :
    (p : ℕ) (xs ys : List Event)
    → delivered_offsets p (xs ++ ys) ≡ delivered_offsets p xs ++ delivered_offsets p ys
delivered_offsets-append p [] ys = refl
delivered_offsets-append p (delivers msg ∷ xs) ys = ground (arith, delivered_offsets-append p xs ys)
delivered_offsets-append p (begins i ∷ xs) ys = delivered_offsets-append p xs ys
delivered_offsets-append p (finishes i ∷ xs) ys = delivered_offsets-append p xs ys

pub delivered-trace :
    (m : Manager) (p : ℕ) (es : List Event)
    → History.delivered p (trace m es) ≡ delivered_offsets p es
unfolding trace
delivered-trace m p [] = refl
delivered-trace m p (delivers msg ∷ es) = rw (delivered-trace (step m (delivers msg)) p es)
delivered-trace m p (begins i ∷ es) = delivered-trace (step m (begins i)) p es
delivered-trace m p (finishes i ∷ es) = elim (Option-cases (take_at i m.running)) [
  | inl e ↦ rw e (delivered-trace (step m (finishes i)) p es)
  | inr (((msg, box), rest), e) ↦ rw e (delivered-trace (step m (finishes i)) p es)
]

-- The offsets of a partition whose task has gone through its `finally` block.
abbrev pub finished_offsets : Manager → ℕ → List Event → List ℕ
finished_offsets m p es = History.finished p (trace m es)

trace-append :
    (m : Manager) (xs ys : List Event) → trace m (xs ++ ys) ≡ trace m xs ++ trace (run m xs) ys
unfolding trace run
trace-append m [] ys = refl
trace-append m (e ∷ xs) ys = rw (append_assoc, ← trace-append (step m e) xs ys) refl

pub finished_offsets-append :
    (m : Manager) (p : ℕ) (xs ys : List Event)
    → finished_offsets m p (xs ++ ys) ≡ finished_offsets m p xs ++ finished_offsets (run m xs) p ys
finished_offsets-append m p xs ys =
    ap (History.finished p) (trace-append m xs ys)
    ∙ History.finished-append p (trace m xs) (trace (run m xs) ys)

-- Of a task that finishes, the offset is finished after those before it.
pub finished_offsets-split :
    (m : Manager) (p : ℕ) (pre : List Event) (i : ℕ) (post : List Event) (msg : Message) (box : ℕ)
    (rest : List (Message × ℕ))
    → take_at i (run m pre).running ≡ some ((msg, box), rest)
    → (later : List ℕ) × (finished_offsets m p (pre ++ finishes i ∷ post)
        ≡ finished_offsets m p pre ++ (if msg.partition == p then msg.offset ∷ later else later))
finished_offsets-split m p pre i post msg box rest e = (
  finished_offsets (step (run m pre) (finishes i)) p post,
  ap (History.finished p) (trace-append m pre (finishes i ∷ post))
      ∙ History.finished-append p (trace m pre) (trace (run m pre) (finishes i ∷ post))
      ∙ ap (λ l. finished_offsets m p pre ++ l) (unfold trace in rw e refl),
)

pub finish_effects :
    (m : Manager) (i : ℕ) (msg : Message) (box : ℕ) (rest : List (Message × ℕ))
    → take_at i m.running ≡ some ((msg, box), rest)
    → (finish m i).effects
      ≡ (if m.is_paused then m.effects ++ resume msg.partition ∷ [] else m.effects)
        ++ commits msg.partition (complete m.offset_tracker msg.partition msg.offset).1
unfolding finish
finish_effects m i msg box rest e = rw e (ground arith)

pub new_tracker :
    (w : ℕ) (es : List Event)
    → (run (new w) es).offset_tracker ≡ History.run OffsetTracker.new (trace (new w) es)
unfolding new
new_tracker w es = run_tracker (new w) es

below_next : (s : ℤ) (x : ℕ) → pos x <ℤ next_offset s → pos x ≤ℤ s
below_next s x h = ground arith

-- When the `finally` block of a task commits a position, every message delivered so far on its
-- partition below that position has finished: no commit passes a message that is waiting, running
-- or dropped. If the topic is paused, the block resumes the partition of the task, and that alone.
pub commits_only_finished :
    (w : ℕ) (es : List Event) (i : ℕ) (msg : Message) (box : ℕ) (rest : List (Message × ℕ)) {s : ℤ}
    → take_at i (run (new w) es).running ≡ some ((msg, box), rest)
    → (complete (run (new w) es).offset_tracker msg.partition msg.offset).1 ≡ some s
    → let m = run (new w) es in
      let p = msg.partition in
      ((finish m i).effects
        ≡ (if m.is_paused then m.effects ++ resume p ∷ [] else m.effects)
          ++ commit_offsets p (next_offset s) ∷ [])
      × ((x : ℕ)
          → has x (delivered_offsets p es) ≡ true
          → pos x <ℤ next_offset s
          → has x (msg.offset ∷ finished_offsets (new w) p es) ≡ true)
commits_only_finished w es i msg box rest {s} e c = (
  rw (finish_effects (run (new w) es) i msg box rest e, c),
  λ x d lt.
      History.commit_covers (trace (new w) es) msg.partition msg.offset (rw (← new_tracker w es) c)
        x (rw (delivered-trace (new w) msg.partition es) d) (below_next s x lt),
)
