-- ===== src/Worker/Manager/Sent.antt =====
-- Every position that the worker manager has told the consumer to commit was told by a task that
-- finished.
use judge_it.Prelude.{
  Bool, true, false, ℕ, ◌≡◌, ◌≢◌, refl, ap, ◌⊎◌, inl, inr, List, [], ◌∷◌, ◌++◌, Option, none, some,
  arith, take_at, Option-cases, if◌then◌else◌, subst,
}
use judge_it.Prelude.Int.{ℤ}
use judge_it.Worker.OffsetTracker.{complete}
use judge_it.Worker.Manager.{
  Message, Manager, Effect, pause, resume, consumed, commit_offsets, Event, delivers, begins,
  finishes, next_offset, commits, deliver, begin, finish, step, run,
}
use judge_it.Worker.Manager.Commits.{finish_effects}

-- A commit of a position of a partition is among the effects.
abbrev pub Commits : ℕ → ℤ → List Effect → Type 0
Commits p c [] = ⊥
Commits p c (e ∷ es) = (e ≡ commit_offsets p c) ⊎ Commits p c es

Commits-append :
    (p : ℕ) (c : ℤ) (xs ys : List Effect) → Commits p c (xs ++ ys) → Commits p c xs ⊎ Commits p c ys
Commits-append p c [] ys h = inr h
Commits-append p c (x ∷ xs) ys (inl e) = inl (inl e)
Commits-append p c (x ∷ xs) ys (inr h) = elim (Commits-append p c xs ys h) [
  | inl there ↦ inl (inr there)
  | inr there ↦ inr there
]

-- The step in a state that commits: a task finishes, and its partition is answered an offset.
abbrev pub CommitsAt : Manager → ℕ → ℕ → ℤ → Type 0
CommitsAt m i p c =
    (msg : Message) × (box : ℕ) × (rest : List (Message × ℕ)) × (s : ℤ) × (take_at i m.running
      ≡ some ((msg, box), rest))
    × ((complete m.offset_tracker msg.partition msg.offset).1 ≡ some s)
    × (msg.partition ≡ p)
    × (c ≡ next_offset s)

deliver_effects :
    (m : Manager) (msg : Message)
    → ((deliver m msg).effects ≡ m.effects) ⊎ ((deliver m msg).effects ≡ m.effects ++ pause ∷ [])
unfolding deliver
deliver_effects m msg = ground arith

begin_effects :
    (m : Manager) (i : ℕ)
    → ((begin m i).effects ≡ m.effects) ⊎ ((begin m i).effects ≡ m.effects ++ consumed ∷ [])
unfolding begin
begin_effects m i = ground arith

not_commit : (p : ℕ) (c : ℤ) (e : Effect) → Commits p c (e ∷ []) → e ≡ commit_offsets p c
not_commit p c e (inl h) = h
not_commit p c e (inr h) = elim h [ ]

other_effect :
    (p : ℕ) (c : ℤ) (es now : List Effect) (e : Effect)
    → e ≢ commit_offsets p c
    → (now ≡ es) ⊎ (now ≡ es ++ e ∷ [])
    → Commits p c now
    → Commits p c es
other_effect p c es now e other (inl same) h = subst (Commits p c) same h
other_effect p c es now e other (inr more) h =
    elim (Commits-append p c es (e ∷ []) (subst (Commits p c) more h)) [
      | inl there ↦ there
      | inr there ↦ absurd (other (not_commit p c e there))
    ]

added_if :
    (b : Bool) (es : List Effect) (e : Effect)
    → let now = if b then es ++ e ∷ [] else es in (now ≡ es) ⊎ (now ≡ es ++ e ∷ [])
added_if true es e = inr refl
added_if false es e = inl refl

answered :
    (p q : ℕ) (c : ℤ) (o : Option ℤ)
    → Commits p c (commits q o)
    → (s : ℤ) × (o ≡ some s) × (q ≡ p) × (c ≡ next_offset s)
answered p q c none h = elim h [ ]
answered p q c (some s) h =
    let e = not_commit p c (commit_offsets q (next_offset s)) h in (s, refl, cc, cc)

finish-Commits :
    (m : Manager) (i p : ℕ) (c : ℤ)
    → Commits p c (finish m i).effects
    → Commits p c m.effects ⊎ CommitsAt m i p c
unfolding finish
finish-Commits m i p c h = elim (Option-cases (take_at i m.running)) [
  | inl e ↦ inl (rw e at h)
  | inr (((msg, box), rest), e) ↦
      let split =
        Commits-append p c _
          (commits msg.partition (complete m.offset_tracker msg.partition msg.offset).1)
          (subst (Commits p c) (finish_effects m i msg box rest e) h) in
      elim split [
        | inl before ↦ inl (
            other_effect p c m.effects _ (resume msg.partition) (λ x. cc)
              (added_if m.is_paused m.effects _) before)
        | inr now ↦
            let (s, o, same, position) = answered p msg.partition c _ now in
            inr (msg, box, rest, s, e, o, same, position)
      ]
]

-- The events up to a finish that commits, that finish, and the events after it.
abbrev pub CommitsIn : Manager → List Event → ℕ → ℤ → Type 0
CommitsIn m es p c =
    (pre : List Event) × (i : ℕ) × (post : List Event) × (es ≡ pre ++ finishes i ∷ post)
    × CommitsAt (run m pre) i p c

step-Commits :
    (m : Manager) (e : Event) (es : List Event) (p : ℕ) (c : ℤ)
    → Commits p c (step m e).effects
    → Commits p c m.effects ⊎ CommitsIn m (e ∷ es) p c
unfolding step run
step-Commits m (delivers msg) es p c h =
    inl (other_effect p c m.effects _ pause (λ x. cc) (deliver_effects m msg) h)
step-Commits m (begins i) es p c h =
    inl (other_effect p c m.effects _ consumed (λ x. cc) (begin_effects m i) h)
step-Commits m (finishes i) es p c h = elim (finish-Commits m i p c h) [
  | inl before ↦ inl before
  | inr now ↦ inr ([], i, es, refl, now)
]

pub run-Commits :
    (m : Manager) (es : List Event) (p : ℕ) (c : ℤ)
    → Commits p c (run m es).effects
    → Commits p c m.effects ⊎ CommitsIn m es p c
unfolding run
run-Commits m [] p c h = inl h
run-Commits m (e ∷ es) p c h = elim (run-Commits (step m e) es p c h) [
  | inl sooner ↦ step-Commits m e es p c sooner
  | inr (pre, i, post, split, now) ↦ inr (e ∷ pre, i, post, ap (λ l. e ∷ l) split, now)
]
