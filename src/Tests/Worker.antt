-- ===== src/Tests/Worker.antt =====
-- The worker's theorems at concrete inputs, and runs of src/worker.
use judge_it.Prelude.{
  ℕ, All, ◌↔◌, ◌==◌, if◌then◌else◌, ◌≤◌, ◌≡◌, refl, List, [], ◌∷◌, ◌++◌, none, some, arith, length,
  count, true, Bool, ◌||◌, inl, inr,
}
use judge_it.Prelude.Eq.{nat_eq}
use judge_it.Prelude.Int.{pos, ◌<ℤ◌}
use judge_it.Prelude.Maps.{get, put, has}
use judge_it.Worker.Manager.{
  Message, Manager, Event, delivers, begins, finishes, pause, resume, consumed, commit_offsets,
}
use judge_it.Worker.Manager as Manager
use judge_it.Worker.Manager.Boxes.{places, new-Inv, running_isolated, run-Inv}
use judge_it.Worker.Manager.Commits.{
  commits_only_finished, trace, delivered_offsets, finished_offsets,
}
use judge_it.Worker.Manager.Sent.{Commits}
use judge_it.Worker.Restarts.{Runs, none_yet, restarts, restarts_lose_nothing}
use judge_it.Worker.Manager.Deliveries.{every_delivery_finishes}
use judge_it.Worker.Manager.Progress.{is_own, IsAtRest}
use judge_it.Worker.Manager.Dropped.{dropped_box_lost}
use judge_it.Worker.OffsetTracker.{Tracker, track, complete, settle, lowest}
use judge_it.Worker.OffsetTracker.History.{tracks, completes, commit_lags}
use judge_it.Worker.OffsetTracker.History as History
use judge_it.Worker.Startup.{Answers, Starts, total, retry, on_module_init, on_module_init_iff}
use judge_it.Prelude.Results.{Result, done, thrown}
use judge_it.Prelude.Text.{Text, text}
use judge_it.Worker.Semaphore.{acquire, release, available}
use judge_it.Worker.Semaphore as Semaphore
use judge_it.Worker.Semaphore.Boxes.{boxes}
use judge_it.Worker.Semaphore.Fifo.{served, served_in_order}
use judge_it.Worker.Semaphore.Trace.{Call, acquires, releases, start, boxes_exclusive}
use judge_it.Worker.Semaphore.Trace as Trace

-- The third attempt comes through.
abbrev third : ℕ → Result Text (Unit {0})
third k = if k == 3 then done tt else thrown (text "no leader")

abbrev answers : Answers
answers = record { connect = done tt; subscribe = third; run = λ k. done tt }

on_module_init_iff_example :
    (((on_module_init answers).0 ≡ done tt)
      ↔ ((answers.connect ≡ done tt) × ((k : ℕ) × (1 ≤ k) × (k ≤ 5) × Starts answers k)))
    × (total (on_module_init answers).1 ≤ 20000)
on_module_init_iff_example = on_module_init_iff answers

waits_twice : on_module_init answers ≡ (done tt, 2000 ∷ 4000 ∷ [])
unfolding on_module_init retry
waits_twice = refl

-- Two boxes, three callers; the second box comes back first.
abbrev calls : List Call
calls = acquires 7 ∷ acquires 8 ∷ acquires 9 ∷ releases 1 ∷ []

served_in_order_example :
    7 ∷ 8 ∷ 9 ∷ [] ≡ served (start 2) calls ++ (Trace.run (start 2) calls).sem.queue
served_in_order_example = served_in_order 2 calls

-- Offsets 4 and 5 of partition 0, delivered; 5 completes first.
abbrev two_in_flight : Tracker
two_in_flight = record { in_flight = (0, 4 ∷ 5 ∷ []) ∷ []; committed = (0, pos 3) ∷ [] }

complete_first :
    complete two_in_flight 0 4
    ≡ (record { in_flight = (0, 5 ∷ []) ∷ []; committed = (0, pos 4) ∷ [] }, some (pos 4))
unfolding complete settle lowest get put
complete_first = refl

abbrev tracked : List History.Event
tracked = tracks 0 0 ∷ tracks 0 1 ∷ completes 0 1 ∷ []

abbrev submission : ℕ → Message
submission o = record { partition = 0; offset = o; value = some (1 ∷ []) }

abbrev tombstone : Message
tombstone = record { partition = 0; offset = 0; value = none }

-- One worker, two deliveries: the second pauses the topic and waits for the first task's box.
abbrev busy : List Event
busy = delivers (submission 0) ∷ begins 0 ∷ delivers (submission 1) ∷ []

busy_then_done :
    (Manager.run (Manager.new 1) (busy ++ finishes 0 ∷ [])).effects
    ≡ consumed ∷ pause ∷ resume 0 ∷ commit_offsets 0 (pos 1) ∷ []
unfolding Manager.run Manager.step Manager.deliver Manager.begin Manager.finish Manager.new
    Semaphore.new acquire release available track complete settle lowest get put
busy_then_done = refl

running_isolated_example :
    let m = Manager.run (Manager.new 1) busy in (length m.running ≤ 1) × (places 0 m ≤ 1)
running_isolated_example = running_isolated 1 busy 0

commits_only_finished_example :
    let m = Manager.run (Manager.new 1) busy in
    ((Manager.finish m 0).effects ≡ consumed ∷ pause ∷ resume 0 ∷ commit_offsets 0 (pos 1) ∷ [])
    × ((x : ℕ) → has x (0 ∷ 1 ∷ []) ≡ true → pos x <ℤ pos 1 → has x (0 ∷ []) ≡ true)
unfolding Manager.run Manager.step Manager.deliver Manager.begin Manager.new Semaphore.new acquire
    available track complete settle lowest get put trace
commits_only_finished_example =
    commits_only_finished 1 busy 0 (submission 0) 0 [] {s = pos 0} refl refl

-- One worker, and a message with no value.
abbrev lost : List Event
lost = delivers tombstone ∷ begins 0 ∷ []

later : List Event
later = delivers (submission 1) ∷ begins 0 ∷ finishes 0 ∷ []

dropped_box_lost_example :
    let m = Manager.run (Manager.run (Manager.new 1) lost) later in
    (count 0 m.semaphore.available_boxes ≡ 0)
    × (count 0 (boxes m.granted) ≡ 0)
    × (count 0 (boxes m.running) ≡ 0)
unfolding Manager.run Manager.step Manager.deliver Manager.begin Manager.new Semaphore.new acquire
    available track get put
dropped_box_lost_example =
    dropped_box_lost 1 (Manager.run (Manager.new 1) lost) later 0
      (run-Inv 1 (Manager.new 1) lost (new-Inv 1)) (omega arith)

-- Two deliveries to a worker with one box.
abbrev two_deliveries : List Event
two_deliveries = delivers (submission 4) ∷ delivers (submission 5) ∷ []

every_delivery_finishes_example :
    (own : List Event) × All (λ e. is_own e ≡ true) own
    × IsAtRest 1 (Manager.run (Manager.run (Manager.new 1) two_deliveries) own)
    × ((p x : ℕ)
        → has x (delivered_offsets p two_deliveries) ≡ true
        → has x (finished_offsets (Manager.new 1) p (two_deliveries ++ own)) ≡ true)
every_delivery_finishes_example =
    every_delivery_finishes 1 two_deliveries (omega arith) ((1 ∷ [], refl), ((1 ∷ [], refl), tt))

-- The first run commits the message 0 and crashes while it judges the message 1; the second is handed
-- the message 1 again.
abbrev crashed : List Event
crashed = delivers (submission 0) ∷ begins 0 ∷ finishes 0 ∷ delivers (submission 1) ∷ begins 0 ∷ []

abbrev log : ℕ → Bool
log x = x == 0 || x == 1

crashed-Commits : Commits 0 (pos 1) (Manager.run (Manager.new 1) crashed).effects
unfolding Manager.run Manager.step Manager.deliver Manager.begin Manager.finish Manager.new
    Semaphore.new acquire release available track complete settle lowest get put
crashed-Commits = inr (inl refl)

two-Runs : Runs log 0 0 1 (
    ([] ++ finished_offsets (Manager.new 1) 0 crashed)
    ++ finished_offsets (Manager.new 1) 0 (delivers (submission 1) ∷ []))
two-Runs =
    restarts 1 (delivers (submission 1) ∷ [])
      (restarts 1 crashed none_yet
        (omega arith, λ x h le. omega arith, (omega arith, λ x h le. omega arith, tt))
        (inr crashed-Commits))
      (omega arith, λ x h le. le, tt) (inl refl)

restarts_lose_nothing_example :
    has 0 (
      ([] ++ finished_offsets (Manager.new 1) 0 crashed)
      ++ finished_offsets (Manager.new 1) 0 (delivers (submission 1) ∷ []))
    ≡ true
restarts_lose_nothing_example = restarts_lose_nothing two-Runs 0 refl (omega arith) (omega arith)
