-- ===== src/Worker/Manager/Carried.antt =====
-- What holds of every message that is delivered holds of those that wait, have a box or run.
use judge_it.Prelude.{
  ℕ, zero, suc, subst, inl, inr, List, [], ◌∷◌, Option, none, some, All, All-append, take_at,
  push_snd, Option-cases, Bool-cases, Bool, not, ◌&&◌, ◌==◌,
}
use judge_it.Worker.OffsetTracker.{Tracker}
use judge_it.Worker.Semaphore.{available}
use judge_it.Worker.Semaphore as Semaphore
use judge_it.Worker.Semaphore.Cases.{acquire-cases, release-cases}
use judge_it.Worker.Manager.{
  Message, Manager, Effect, Event, delivers, begins, finishes, new, deliver, begin, finish, process,
  pause_if_full, acquire_box, release_box, resume_if_paused, step, run,
}
use judge_it.Worker.Manager.Boxes.{Inv, repack, pause_if_full-Inv, step-Inv}

abbrev pub Taken : {A : Type 0} → (A → Type 0) → Option (A × List A) → Type 0
Taken P none = Unit
Taken P (some (x, rest)) = P x × All P rest

push_snd-Taken :
    {A : Type 0} (P : A → Type 0) (y : A) (o : Option (A × List A))
    → P y
    → Taken P o
    → Taken P (push_snd y o)
push_snd-Taken P y none p t = tt
push_snd-Taken P y (some (x, rest)) p t = (t.0, (p, t.1))

pub take_at-All :
    {A : Type 0} (P : A → Type 0) (i : ℕ) (xs : List A) → All P xs → Taken P (take_at i xs)
take_at-All P i [] ps = tt
take_at-All P zero (y ∷ ys) ps = ps
take_at-All P (suc i) (y ∷ ys) ps = push_snd-Taken P y (take_at i ys) ps.0 (take_at-All P i ys ps.1)

module _ (P : Message → Type 0) where
  pub record Carried (m : Manager) : Type 0 where
    pub queued : All P m.semaphore.queue
    pub granted : All (λ g. P g.0) m.granted
    pub running : All (λ g. P g.0) m.running

  abbrev pub Delivers : Event → Type 0
  Delivers (delivers msg) = P msg
  Delivers (begins i) = Unit
  Delivers (finishes i) = Unit

  acquire_box-Carried :
      (w : ℕ) (m : Manager) (msg : Message)
      → Inv w m
      → P msg
      → Carried m
      → Carried (acquire_box m msg)
  acquire_box-Carried w m msg inv h v = elim (acquire-cases m.semaphore msg inv.counted) [
    | inl (box, rest, free, e) ↦ rw e (record {
      queued = v.queued;
      granted = All-append (λ g. P g.0) m.granted ((msg, box) ∷ []) v.granted (h, tt);
      running = v.running;
    })
    | inr (full, e) ↦ rw e (record {
      queued = All-append P m.semaphore.queue (msg ∷ []) v.queued (h, tt);
      granted = v.granted;
      running = v.running;
    })
  ]

  -- The flag, the tracker and the effects do not matter.
  repack-Carried :
      (m : Manager) (paused : Bool) (t : Tracker) (es : List Effect)
      → Carried m
      → Carried (record m { is_paused = paused; offset_tracker = t; effects = es })
  repack-Carried m paused t es v = record {
    queued = v.queued;
    granted = v.granted;
    running = v.running;
  }

  pause_if_full-Carried : (m : Manager) → Carried m → Carried (pause_if_full m)
  pause_if_full-Carried m v = elim (Bool-cases (not m.is_paused && available m.semaphore == 0)) [
    | inl e ↦ rw e (repack-Carried m _ m.offset_tracker _ v)
    | inr e ↦ rw e v
  ]

  resume_if_paused-Carried : (m : Manager) (p : ℕ) → Carried m → Carried (resume_if_paused m p)
  resume_if_paused-Carried m p v = elim (Bool-cases m.is_paused) [
    | inl e ↦ rw e (repack-Carried m _ m.offset_tracker _ v)
    | inr e ↦ simp e v
  ]

  process-Carried :
      (m : Manager) (msg : Message) (box : ℕ) (rest : List (Message × ℕ)) (es : List Effect)
      (value : Option (List ℕ))
      → P msg
      → All (λ g. P g.0) rest
      → Carried m
      → Carried (process (record m { granted = rest; effects = es }) msg box value)
  process-Carried m msg box rest es none h all v = record {
    queued = v.queued;
    granted = all;
    running = v.running;
  }
  process-Carried m msg box rest es (some value) h all v = record {
    queued = v.queued;
    granted = all;
    running = All-append (λ g. P g.0) m.running ((msg, box) ∷ []) v.running (h, tt);
  }

  release_box-Carried :
      (m : Manager) (box : ℕ) (rest : List (Message × ℕ))
      → All (λ g. P g.0) rest
      → Carried m
      → Carried (release_box (record m { running = rest }) box)
  release_box-Carried m box rest all v = elim (release-cases m.semaphore box) [
    | inl (idle, r) ↦ rw r (record { queued = v.queued; granted = v.granted; running = all })
    | inr (next, others, waits, r) ↦
        let both : P next × All P others = subst (All P) waits v.queued in
        rw r (record {
          queued = both.1;
          granted = All-append (λ g. P g.0) m.granted ((next, box) ∷ []) v.granted (both.0, tt);
          running = all;
        })
  ]

  pub step-Carried :
      (w : ℕ) (m : Manager) (e : Event) → Delivers e → Inv w m → Carried m → Carried (step m e)
  unfolding step deliver begin finish
  step-Carried w m (delivers msg) h inv v =
      acquire_box-Carried w _ msg (pause_if_full-Inv w _ (repack w m m.is_paused _ m.effects inv)) h
        (pause_if_full-Carried _ (repack-Carried m m.is_paused _ m.effects v))
  step-Carried w m (begins i) h inv v = elim (Option-cases (take_at i m.granted)) [
    | inl e ↦ rw e v
    | inr (((msg, box), rest), e) ↦
        let taken : P msg × All (λ g. P g.0) rest =
          subst (Taken (λ g. P g.0)) e (take_at-All (λ g. P g.0) i m.granted v.granted) in
        rw e (process-Carried m msg box rest _ msg.value taken.0 taken.1 v)
  ]
  step-Carried w m (finishes i) h inv v = elim (Option-cases (take_at i m.running)) [
    | inl e ↦ rw e v
    | inr (((msg, box), rest), e) ↦
        let taken : P msg × All (λ g. P g.0) rest =
          subst (Taken (λ g. P g.0)) e (take_at-All (λ g. P g.0) i m.running v.running) in
        rw e (
          repack-Carried _ _ _ _
            (resume_if_paused-Carried _ msg.partition (release_box-Carried m box rest taken.1 v)))
  ]

  pub run-Carried :
      (w : ℕ) (m : Manager) (es : List Event)
      → All Delivers es
      → Inv w m
      → Carried m
      → Carried (run m es)
  unfolding run
  run-Carried w m [] hs inv v = v
  run-Carried w m (e ∷ es) hs inv v =
      run-Carried w (step m e) es hs.1 (step-Inv w m e inv) (step-Carried w m e hs.0 inv v)

  pub new-Carried : (w : ℕ) → Carried (new w)
  unfolding new Semaphore.new
  new-Carried w = record { queued = tt; granted = tt; running = tt }
