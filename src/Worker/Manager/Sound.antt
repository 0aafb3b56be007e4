-- ===== src/Worker/Manager/Sound.antt =====
-- A worker manager that is delivered messages with a value drops none of its tasks.
use judge_it.Prelude.{
  ℕ, ◌≡◌, refl, subst, inl, inr, List, [], ◌∷◌, some, All, take_at, Option-cases, arith,
}
use judge_it.Worker.Manager.{
  Message, Manager, Event, delivers, begins, finishes, new, deliver, begin, finish, step, run,
}
use judge_it.Worker.Manager.Boxes.{Inv, step-Inv}
use judge_it.Worker.Manager.Carried.{
  Carried, Delivers, Taken, take_at-All, step-Carried, new-Carried,
}

abbrev pub HasValue : Message → Type 0
HasValue msg = (value : List ℕ) × (msg.value ≡ some value)

-- A manager whose messages all have a value.
pub record Sound (m : Manager) : Type 0 where
  pub carried : Carried HasValue m
  pub none_dropped : m.dropped ≡ []

-- A delivery of a message with a value, or an event of a task.
abbrev pub DeliversValue : Event → Type 0
DeliversValue e = Delivers HasValue e

step-dropped :
    (m : Manager) (e : Event) → All (λ g. HasValue g.0) m.granted → (step m e).dropped ≡ m.dropped
unfolding step deliver begin finish
step-dropped m (delivers msg) all = ground arith
step-dropped m (begins i) all = elim (Option-cases (take_at i m.granted)) [
  | inl e ↦ rw e
  | inr (((msg, box), rest), e) ↦
      let taken : HasValue msg × All (λ g. HasValue g.0) rest =
        subst (Taken (λ g. HasValue g.0)) e (take_at-All (λ g. HasValue g.0) i m.granted all) in
      rw (e, taken.0.1) refl
]
step-dropped m (finishes i) all = ground arith

pub step-Sound :
    (w : ℕ) (m : Manager) (e : Event) → DeliversValue e → Inv w m → Sound m → Sound (step m e)
step-Sound w m e h inv v = record {
  carried = step-Carried HasValue w m e h inv v.carried;
  none_dropped = rw (step-dropped m e v.carried.granted) v.none_dropped;
}

pub run-Sound :
    (w : ℕ) (m : Manager) (es : List Event)
    → All DeliversValue es
    → Inv w m
    → Sound m
    → Sound (run m es)
unfolding run
run-Sound w m [] hs inv v = v
run-Sound w m (e ∷ es) hs inv v =
    run-Sound w (step m e) es hs.1 (step-Inv w m e inv) (step-Sound w m e hs.0 inv v)

pub new-Sound : (w : ℕ) → Sound (new w)
unfolding new
new-Sound w = record { carried = new-Carried HasValue w; none_dropped = refl }
