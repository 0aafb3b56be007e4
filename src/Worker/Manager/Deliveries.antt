-- ===== src/Worker/Manager/Deliveries.antt =====
-- A worker manager that is delivered messages with a value never comes to a deadlock, and starts and
-- ends of tasks finish everything it was delivered.
use judge_it.Prelude.{
  ℕ, ◌≤◌, ◌≡◌, refl, List, [], ◌∷◌, ◌++◌, true, false, ◌||◌, All, arith, ap, ◌∙◌, inl, inr,
}
use judge_it.Prelude.Bools.{or_left, or_right, or-cases, or-false}
use judge_it.Prelude.Maps.{has, has-append}
use judge_it.Worker.Manager.{Manager, Event, delivers, begins, finishes, new, run}
use judge_it.Worker.Manager.Boxes.{Inv, new-Inv, run-Inv}
use judge_it.Worker.Manager.Commits.{delivered_offsets, finished_offsets, finished_offsets-append}
use judge_it.Worker.Manager.Finished.{held, run-held}
use judge_it.Worker.Manager.Progress.{is_own, IsAtRest, ComesToRest, Sound-ComesToRest}
use judge_it.Worker.Manager.Sound.{DeliversValue, Sound, run-Sound, new-Sound}

own-DeliversValue : (es : List Event) → All (λ e. is_own e ≡ true) es → All DeliversValue es
own-DeliversValue [] own = tt
own-DeliversValue (delivers msg ∷ es) own = absurd (cc)
own-DeliversValue (begins i ∷ es) own = (tt, own-DeliversValue es own.1)
own-DeliversValue (finishes i ∷ es) own = (tt, own-DeliversValue es own.1)

rest-held : (w p x : ℕ) (m : Manager) → IsAtRest w m → Sound m → held p x m ≡ false
rest-held w p x m (idle, none_granted, none_running, free) sound =
    rw (idle, none_granted, none_running, sound.none_dropped) refl

-- From a new manager on, an offset that was delivered is held or finished.
new-held :
    (w p x : ℕ) (es : List Event)
    → has x (delivered_offsets p es) ≡ true
    → (held p x (run (new w) es) || has x (finished_offsets (new w) p es)) ≡ true
new-held w p x es d = run-held p x w (new w) es (new-Inv w) (ground (arith, d))

-- A state at rest that tasks lead to has finished whatever was delivered.
rest_finishes :
    (w : ℕ) (es own : List Event)
    → All DeliversValue es
    → All (λ e. is_own e ≡ true) own
    → IsAtRest w (run (run (new w) es) own)
    → (p x : ℕ) → has x (delivered_offsets p es) ≡ true
    → has x (finished_offsets (new w) p (es ++ own)) ≡ true
rest_finishes w es own hs owns rests p x d =
    let m = run (new w) es in
    let inv : Inv w m = run-Inv w (new w) es (new-Inv w) in
    let sound : Sound m = run-Sound w (new w) es hs (new-Inv w) (new-Sound w) in
    let at_end : Sound (run m own) = run-Sound w m own (own-DeliversValue own owns) inv sound in
    let none_held = rest-held w p x (run m own) rests at_end in
    let joined : has x (finished_offsets (new w) p (es ++ own))
        ≡ (has x (finished_offsets (new w) p es) || has x (finished_offsets m p own)) =
      ap (has x) (finished_offsets-append (new w) p es own)
      ∙ has-append x (finished_offsets (new w) p es) (finished_offsets m p own) in
    elim (or-cases (held p x m) (has x (finished_offsets (new w) p es)) (new-held w p x es d)) [
      | inl holds ↦
          joined
          ∙ or_right (has x (finished_offsets (new w) p es)) (has x (finished_offsets m p own)) (
              or-false (held p x (run m own)) (has x (finished_offsets m p own)) none_held (
                run-held p x w m own inv
                  (or_left (held p x m) (has x (delivered_offsets p own)) holds)))
      | inr ended ↦
          joined
          ∙ or_left (has x (finished_offsets (new w) p es)) (has x (finished_offsets m p own)) ended
    ]

-- The state that events lead to comes to rest by starts and ends of tasks.
run-ComesToRest :
    (w : ℕ) (es : List Event) → 1 ≤ w → All DeliversValue es → ComesToRest w (run (new w) es)
run-ComesToRest w es some_box hs =
    Sound-ComesToRest w (run (new w) es) some_box (run-Inv w (new w) es (new-Inv w))
      (run-Sound w (new w) es hs (new-Inv w) (new-Sound w))

-- Whatever messages with a value are delivered to a worker with a box, and in whatever order tasks
-- start and end, some starts and ends of tasks lead on to a state in which no delivery waits, no
-- task runs and every box is free, and the task of every message delivered has then finished: no
-- order of events is a deadlock or loses a message.
pub every_delivery_finishes :
    (w : ℕ) (es : List Event)
    → 1 ≤ w
    → All DeliversValue es
    → (own : List Event) × All (λ e. is_own e ≡ true) own
      × IsAtRest w (run (run (new w) es) own)
      × ((p x : ℕ)
          → has x (delivered_offsets p es) ≡ true
          → has x (finished_offsets (new w) p (es ++ own)) ≡ true)
every_delivery_finishes w es some_box hs =
    let (own, owns, rests) = run-ComesToRest w es some_box hs in
    (own, owns, rests, rest_finishes w es own hs owns rests)
