-- ===== src/Worker/Manager.antt =====
-- src/worker/worker-manager.service.ts: deliveries of the queue's consumer, and the tasks that judge
-- them. Each step is what the event loop runs without a wait: a delivery up to its `await` of a box,
-- the continuation that starts its task, and the `finally` block of a task. What the consumer is
-- told to do is a list of effects. A judgement that throws runs the same `finally` block as one that
-- returns, and a commit that fails is only logged, so neither outcome is part of the state.
pub mod Boxes
pub mod Dropped
pub mod Sent
pub mod Commits
pub mod Carried
pub mod Sound
pub mod Progress
pub mod Finished
pub mod Deliveries
use judge_it.Prelude.{
  ℕ, suc, ◌+◌, List, [], ◌∷◌, ◌++◌, Bool, true, false, not, ◌&&◌, Option, none, some, if◌then◌else◌,
  ◌==◌, take_at,
}
use judge_it.Prelude.Int.{ℤ, pos_part, neg_part, sub_ℕ}
use judge_it.Worker.OffsetTracker.{Tracker, track, complete}
use judge_it.Worker.OffsetTracker as OffsetTracker
use judge_it.Worker.Semaphore.{Semaphore, Acquired, resolved, pending, acquire, release, available}
use judge_it.Worker.Semaphore as Semaphore

-- `value` is the text of the message, `null` for a message without one.
pub record Message : Type 0 where
  pub partition : ℕ
  pub offset : ℕ
  pub value : Option (List ℕ)

-- Calls of the consumer and of the metrics, for the one topic of the manager.
pub data Effect : Type 0 where
  pause : Effect
  resume : ℕ → Effect
  commit_offsets : ℕ → ℤ → Effect
  consumed : Effect

pub record Manager : Type 0 where
  pub semaphore : Semaphore Message
  pub is_paused : Bool
  pub offset_tracker : Tracker
  -- deliveries that have their box, and whose continuation has not run yet
  pub granted : List (Message × ℕ)
  -- tasks that wait for their judgement
  pub running : List (Message × ℕ)
  -- tasks that returned before their `try`, with the box that they had (the program keeps no such list)
  pub dropped : List (Message × ℕ)
  pub effects : List Effect

unfoldable pub new : ℕ → Manager
new workers = record {
  semaphore = Semaphore.new workers;
  is_paused = false;
  offset_tracker = OffsetTracker.new;
  granted = [];
  running = [];
  dropped = [];
  effects = [];
}

-- The first part of `acquireOrPause`.
abbrev pub pause_if_full : Manager → Manager
pause_if_full m =
    if not m.is_paused && available m.semaphore == 0
    then record m { is_paused = true; effects = m.effects ++ pause ∷ [] }
    else m

-- A caller that gets its box at once goes on. `Semaphore.Cases` shows that the box is never
-- `undefined`; were it so, the delivery would be left out here.
abbrev pub go_on : Message → Acquired → List (Message × ℕ) → List (Message × ℕ)
go_on msg (resolved (some box)) granted = granted ++ (msg, box) ∷ []
go_on msg (resolved none) granted = granted
go_on msg pending granted = granted

abbrev pub acquire_box : Manager → Message → Manager
acquire_box m msg =
    let (s, got) = acquire m.semaphore msg in
    record m { semaphore = s; granted = go_on msg got m.granted }

-- `eachMessage` up to its `await`.
unfoldable pub deliver : Manager → Message → Manager
deliver m msg =
    acquire_box
      (pause_if_full
        (record m { offset_tracker = track m.offset_tracker msg.partition msg.offset }))
      msg

-- `processMessage` up to its `await`: a message with no value returns at once.
abbrev pub process : Manager → Message → ℕ → Option (List ℕ) → Manager
process m msg box none = record m { dropped = (msg, box) ∷ m.dropped }
process m msg box (some value) = record m { running = m.running ++ (msg, box) ∷ [] }

abbrev pub start_task : Manager → Option ((Message × ℕ) × List (Message × ℕ)) → Manager
start_task m none = m
start_task m (some ((msg, box), rest)) =
    process (record m { granted = rest; effects = m.effects ++ consumed ∷ [] }) msg box msg.value

-- The rest of `eachMessage`, for the delivery at an index of `granted`.
unfoldable pub begin : Manager → ℕ → Manager
begin m i = start_task m (take_at i m.granted)

abbrev pub wake : Option (Message × ℕ) → List (Message × ℕ) → List (Message × ℕ)
wake none granted = granted
wake (some g) granted = granted ++ g ∷ []

abbrev pub release_box : Manager → ℕ → Manager
release_box m box =
    let (s, woken) = release m.semaphore box in
    record m { semaphore = s; granted = wake woken m.granted }

abbrev pub resume_if_paused : Manager → ℕ → Manager
resume_if_paused m partition =
    if m.is_paused
    then record m { is_paused = false; effects = m.effects ++ resume partition ∷ [] }
    else m

-- `(BigInt(safeOffset) + 1n)`.
abbrev pub next_offset : ℤ → ℤ
next_offset s = sub_ℕ (pos_part s + 1) (neg_part s)

abbrev pub commits : ℕ → Option ℤ → List Effect
commits partition none = []
commits partition (some safe) = commit_offsets partition (next_offset safe) ∷ []

abbrev pub commit_safe : Manager → ℕ → ℕ → Manager
commit_safe m partition offset =
    let (t, safe) = complete m.offset_tracker partition offset in
    record m { offset_tracker = t; effects = m.effects ++ commits partition safe }

abbrev pub finish_task : Manager → Option ((Message × ℕ) × List (Message × ℕ)) → Manager
finish_task m none = m
finish_task m (some ((msg, box), rest)) =
    commit_safe (resume_if_paused (release_box (record m { running = rest }) box) msg.partition)
      msg.partition msg.offset

-- The `finally` block of the task at an index of `running`.
unfoldable pub finish : Manager → ℕ → Manager
finish m i = finish_task m (take_at i m.running)

pub data Event : Type 0 where
  delivers : Message → Event
  begins finishes : ℕ → Event

unfoldable pub step : Manager → Event → Manager
step m (delivers msg) = deliver m msg
step m (begins i) = begin m i
step m (finishes i) = finish m i

unfoldable pub run : Manager → List Event → Manager
run m [] = m
run m (e ∷ es) = run (step m e) es
