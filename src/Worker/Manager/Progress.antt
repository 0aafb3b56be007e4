-- ===== src/Worker/Manager/Progress.antt =====
-- The worker manager comes to rest: what is queued is granted a box, judged and released.
use judge_it.Prelude.{
  ℕ, zero, suc, ◌+◌, ◌*◌, ◌≤◌, ◌≡◌, refl, ap, subst, ◌⊎◌, inl, inr, List, [], ◌∷◌, ◌++◌, some,
  arith, length, length-append, All, Bool-cases, Bool, true, false,
}
use judge_it.Worker.Semaphore.Cases.{release-cases}
use judge_it.Worker.Manager.{
  Message, Manager, Event, delivers, begins, finishes, begin, finish, step, run,
}
use judge_it.Worker.Manager.Boxes.{Inv, step-Inv}
use judge_it.Worker.Manager.Sound.{HasValue, Sound, step-Sound}

-- What the messages have before them: a start and an end, or an end.
abbrev work : Manager → ℕ
work m = length m.semaphore.queue * 2 + length m.granted * 2 + length m.running

begin_first :
    (m : Manager) (msg : Message) (box : ℕ) (rest : List (Message × ℕ)) (value : List ℕ)
    → m.granted ≡ (msg, box) ∷ rest
    → msg.value ≡ some value
    → ((begin m 0).granted ≡ rest)
      × ((begin m 0).running ≡ m.running ++ (msg, box) ∷ [])
      × ((begin m 0).semaphore ≡ m.semaphore)
unfolding begin
begin_first m msg box rest value e h = rw (e, h) (refl, refl, refl)

finish_first :
    (m : Manager) (msg : Message) (box : ℕ) (rest : List (Message × ℕ))
    → m.running ≡ (msg, box) ∷ rest
    → ((finish m 0).running ≡ rest)
      × (((m.semaphore.queue ≡ [])
            × ((finish m 0).semaphore.queue ≡ [])
            × ((finish m 0).granted ≡ m.granted))
          ⊎ ((next : Message) × (others : List Message) × (m.semaphore.queue ≡ next ∷ others)
              × ((finish m 0).semaphore.queue ≡ others)
              × ((finish m 0).granted ≡ m.granted ++ (next, box) ∷ [])))
unfolding finish
finish_first m msg box rest e = elim (release-cases m.semaphore box) [
  | inl (idle, r) ↦ elim (Bool-cases m.is_paused) [
    | inl p ↦ rw (e, r, p) (refl, inl (idle, idle, refl))
    | inr p ↦ rw (e, r, p) (refl, inl (idle, idle, refl))
  ]
  | inr (next, others, waits, r) ↦ elim (Bool-cases m.is_paused) [
    | inl p ↦ rw (e, r, p) (refl, inr (next, others, waits, refl, refl))
    | inr p ↦ rw (e, r, p) (refl, inr (next, others, waits, refl, refl))
  ]
]

begin_first-work :
    (m : Manager) (msg : Message) (box : ℕ) (rest : List (Message × ℕ))
    → m.granted ≡ (msg, box) ∷ rest
    → Sound m
    → suc (work (begin m 0)) ≤ work m
begin_first-work m msg box rest e v =
    let both : HasValue msg × All (λ g. HasValue g.0) rest =
      subst (All (λ g. HasValue g.0)) e v.carried.granted in
    let (granted, running, semaphore) = begin_first m msg box rest both.0.0 e both.0.1 in
    omega (
      arith,
      ap length granted,
      ap length running,
      ap (λ s. length s.queue) semaphore,
      ap length e,
      length-append {0} m.running ((msg, box) ∷ []),
    )

finish_first-work :
    (m : Manager) (msg : Message) (box : ℕ) (rest : List (Message × ℕ))
    → m.running ≡ (msg, box) ∷ rest
    → suc (work (finish m 0)) ≤ work m
finish_first-work m msg box rest e =
    let (running, woken) = finish_first m msg box rest e in
    elim woken [
      | inl (idle, queue, granted) ↦ omega (
        arith,
        ap length e,
        ap length running,
        ap length idle,
        ap length queue,
        ap length granted,
      )
      | inr (next, others, waits, queue, granted) ↦ omega (
        arith,
        ap length e,
        ap length running,
        ap length waits,
        ap length queue,
        ap length granted,
        length-append {0} m.granted ((next, box) ∷ []),
      )
    ]

-- Nothing waits, nothing runs, and all the boxes are free.
abbrev pub IsAtRest : ℕ → Manager → Type 0
IsAtRest w m =
    (m.semaphore.queue ≡ [])
    × (m.granted ≡ [])
    × (m.running ≡ [])
    × (length m.semaphore.available_boxes ≡ w)

-- A start or an end of a task, not a delivery.
abbrev pub is_own : Event → Bool
is_own (delivers msg) = false
is_own (begins i) = true
is_own (finishes i) = true

abbrev pub ComesToRest : ℕ → Manager → Type 0
ComesToRest w m = (es : List Event) × All (λ e. is_own e ≡ true) es × IsAtRest w (run m es)

at_rest :
    (w : ℕ) (m : Manager)
    → 1 ≤ w
    → Inv w m
    → Sound m
    → m.granted ≡ []
    → m.running ≡ []
    → IsAtRest w m
at_rest w m some_box v sound none_granted none_running =
    let free : length m.semaphore.available_boxes ≡ w = omega (
      arith,
      v.all_there,
      ap length none_granted,
      ap length none_running,
      ap length sound.none_dropped,
    ) in
    elim v.waiting [
      | inl full ↦ absurd (omega (arith, full, v.counted, free))
      | inr idle ↦ (idle, none_granted, none_running, free)
    ]

work-ComesToRest :
    (n w : ℕ) (m : Manager) (granted running : List (Message × ℕ))
    → m.granted ≡ granted
    → m.running ≡ running
    → 1 ≤ w
    → Inv w m
    → Sound m
    → work m ≤ n
    → ComesToRest w m
unfolding run step
work-ComesToRest n w m [] [] eg er some_box v sound bound =
    ([], tt, at_rest w m some_box v sound eg er)
work-ComesToRest zero w m ((msg, box) ∷ rest) running eg er some_box v sound bound =
    absurd (omega (arith, ap length eg))
work-ComesToRest zero w m [] ((msg, box) ∷ rest) eg er some_box v sound bound =
    absurd (omega (arith, ap length er))
work-ComesToRest (suc n) w m ((msg, box) ∷ rest) running eg er some_box v sound bound =
    let less = begin_first-work m msg box rest eg sound in
    let (es, own, rests) =
      work-ComesToRest n w (begin m 0) (begin m 0).granted (begin m 0).running refl refl some_box
        (step-Inv w m (begins 0) v) (step-Sound w m (begins 0) tt v sound) (omega arith) in
    (begins 0 ∷ es, (refl, own), rests)
work-ComesToRest (suc n) w m [] ((msg, box) ∷ rest) eg er some_box v sound bound =
    let less = finish_first-work m msg box rest er in
    let (es, own, rests) =
      work-ComesToRest n w (finish m 0) (finish m 0).granted (finish m 0).running refl refl some_box
        (step-Inv w m (finishes 0) v) (step-Sound w m (finishes 0) tt v sound) (omega arith) in
    (finishes 0 ∷ es, (refl, own), rests)

-- The same from any state whose messages have a value.
pub Sound-ComesToRest : (w : ℕ) (m : Manager) → 1 ≤ w → Inv w m → Sound m → ComesToRest w m
Sound-ComesToRest w m some_box v sound =
    work-ComesToRest (work m) w m m.granted m.running refl refl some_box v sound (omega arith)
