-- ===== src/Worker/Manager/Dropped.antt =====
-- What a message without a value does to the worker manager.
use judge_it.Prelude.{
  ℕ, ◌≤◌, ◌≡◌, refl, List, [], ◌∷◌, none, some, arith, length, take_at, count,
  count-range_from-le_one,
}
use judge_it.Worker.Semaphore.Boxes.{boxes}
use judge_it.Worker.Manager.{
  Message, Manager, Event, delivers, begins, finishes, pause_if_full, resume_if_paused, deliver,
  begin, finish, step, run,
}
use judge_it.Worker.Manager.Boxes.{Inv, run-Inv}

pause_if_full_dropped : (m : Manager) → (pause_if_full m).dropped ≡ m.dropped
pause_if_full_dropped m = ground arith

resume_if_paused_dropped : (m : Manager) (p : ℕ) → (resume_if_paused m p).dropped ≡ m.dropped
resume_if_paused_dropped m p = ground arith

-- Nothing takes a dropped task back.
dropped_stay :
    (m : Manager) (e : Event) (b : ℕ)
    → (count b (boxes m.dropped) ≤ count b (boxes (step m e).dropped))
      × (length m.dropped ≤ length (step m e).dropped)
unfolding step deliver begin finish
dropped_stay m (delivers msg) b = ground arith
dropped_stay m (begins i) b = ground arith
dropped_stay m (finishes i) b = ground arith

dropped_stay_run :
    (m : Manager) (es : List Event) (b : ℕ)
    → (count b (boxes m.dropped) ≤ count b (boxes (run m es).dropped))
      × (length m.dropped ≤ length (run m es).dropped)
unfolding run
dropped_stay_run m [] b = omega arith
dropped_stay_run m (e ∷ es) b = omega (arith, dropped_stay m e b, dropped_stay_run (step m e) es b)

-- The task of a message with no value ends with its box neither released nor its offset completed.
pub begin_without_value :
    (m : Manager) (i : ℕ) (msg : Message) (box : ℕ) (rest : List (Message × ℕ))
    → take_at i m.granted ≡ some ((msg, box), rest)
    → msg.value ≡ none
    → ((begin m i).dropped ≡ (msg, box) ∷ m.dropped)
      × ((begin m i).running ≡ m.running)
      × ((begin m i).semaphore ≡ m.semaphore)
      × ((begin m i).offset_tracker ≡ m.offset_tracker)
unfolding begin
begin_without_value m i msg box rest e n = ground arith

nil_of_length {ℓ} : {A : Type ℓ} (xs : List A) → length xs ≡ 0 → xs ≡ []
nil_of_length [] h = refl
nil_of_length (x ∷ xs) h = absurd (omega arith)

-- The box of a dropped task is lost: no later event frees it, grants it or runs a task in it.
pub dropped_box_lost :
    (w : ℕ) (m : Manager) (es : List Event) (b : ℕ)
    → Inv w m
    → 1 ≤ count b (boxes m.dropped)
    → let m' = run m es in
      (count b m'.semaphore.available_boxes ≡ 0)
      × (count b (boxes m'.granted) ≡ 0)
      × (count b (boxes m'.running) ≡ 0)
dropped_box_lost w m es b v h =
    let v' = run-Inv w m es v in
    omega (arith, v'.conserved b, count-range_from-le_one 0 w b, dropped_stay_run m es b)

-- Once `w` messages without a value have been taken, the worker is stuck: whatever is delivered
-- later, no task runs again and no delivery is granted a box.
exhausted_stays :
    (w : ℕ) (m : Manager) (es : List Event)
    → Inv w m
    → length m.dropped ≡ w
    → let m' = run m es in
      (m'.running ≡ []) × (m'.granted ≡ []) × (m'.semaphore.available_boxes ≡ [])
exhausted_stays w m es v h =
    let v' = run-Inv w m es v in
    let stay = dropped_stay_run m es 0 in
    (
      nil_of_length _ (omega (arith, v'.all_there, stay)),
      nil_of_length _ (omega (arith, v'.all_there, stay)),
      nil_of_length _ (omega (arith, v'.all_there, stay)),
    )
