-- ===== src/Execution/Sandbox/Emits.antt =====
-- A program logic for code that talks to the host: which commands it adds to those given before.
use mathlib.Core.List.{append-nil, append_assoc}
use judge_it.Prelude.{◌≡◌, refl, sym, ap, ◌∙◌, List, [], ◌∷◌, ◌++◌, All}
use judge_it.Prelude.Lists.{All-append}
use judge_it.Prelude.Results.{Result, done, thrown}
use judge_it.Prelude.Text.{Text}
use judge_it.Execution.Sandbox.{
  Command, Host, M, pure, throw, continue, handled, after, ◌>>=◌, try_catch, try_finally, exec, now,
}

module _ (P : Command → Type 0) where
  -- The second list is the first with commands behind it that satisfy `P`.
  abbrev pub Tail : List Command → List Command → Type 0
  Tail log log' = (added : List Command) × (log' ≡ log ++ added) × All P added

  pub Tail-refl : (log : List Command) → Tail log log
  Tail-refl log = ([], sym (append-nil log), tt)

  pub Tail-trans : (a b c : List Command) → Tail a b → Tail b c → Tail a c
  Tail-trans a b c (xs, e, h) (ys, f, k) =
      (xs ++ ys, f ∙ ap (λ t. t ++ ys) e ∙ append_assoc a xs ys, All-append P xs ys h k)

  pub record Emits {A : Type 0} (m : M A) : Type 0 where
    pub adds : (log : List Command) → Tail log (m log).1

  pub pure-Emits : {A : Type 0} (a : A) → Emits (pure a)
  unfolding pure
  pure-Emits a = record { adds = λ log. Tail-refl log }

  pub throw-Emits : (A : Type 0) (e : Text) → Emits (throw {A = A} e)
  unfolding throw
  throw-Emits A e = record { adds = λ log. Tail-refl log }

  pub exec-Emits : (host : Host) (c : Command) → P c → Emits (exec host c)
  unfolding exec
  exec-Emits host c h = record { adds = λ log. (c ∷ [], refl, (h, tt)) }

  pub now-Emits : (host : Host) → Emits (now host)
  unfolding now
  now-Emits host = record { adds = λ log. Tail-refl log }

  continue-Tail :
      {A B : Type 0} (log : List Command) (r : Result Text A × List Command) (f : A → M B)
      → Tail log r.1
      → ((a : A) → Emits (f a))
      → Tail log (continue r f).1
  continue-Tail log (done a, log') f h k = Tail-trans log log' (f a log').1 h ((k a).adds log')
  continue-Tail log (thrown e, log') f h k = h

  pub >>=-Emits :
      {A B : Type 0} (m : M A) (f : A → M B) → Emits m → ((a : A) → Emits (f a)) → Emits (m >>= f)
  unfolding ◌>>=◌
  >>=-Emits m f h k = record { adds = λ log. continue-Tail log (m log) f (h.adds log) k }

  handled-Tail :
      {A : Type 0} (log : List Command) (r : Result Text A × List Command) (f : Text → M A)
      → Tail log r.1
      → ((e : Text) → Emits (f e))
      → Tail log (handled r f).1
  handled-Tail log (done a, log') f h k = h
  handled-Tail log (thrown e, log') f h k = Tail-trans log log' (f e log').1 h ((k e).adds log')

  pub try_catch-Emits :
      {A : Type 0} (m : M A) (f : Text → M A)
      → Emits m
      → ((e : Text) → Emits (f e))
      → Emits (try_catch m f)
  unfolding try_catch
  try_catch-Emits m f h k = record { adds = λ log. handled-Tail log (m log) f (h.adds log) k }

  after-Tail :
      {A : Type 0} (log : List Command) (r : Result Text A)
      (l : Result Text (Unit {0}) × List Command)
      → Tail log l.1
      → Tail log (after r l).1
  after-Tail log r (done u, log') h = h
  after-Tail log r (thrown e, log') h = h

  pub try_finally-Emits :
      {A : Type 0} (m : M A) (last : M (Unit {0}))
      → Emits m
      → Emits last
      → Emits (try_finally m last)
  unfolding try_finally
  try_finally-Emits m last h k = record {
    adds = λ log.
        after-Tail log (m log).0 (last (m log).1)
          (Tail-trans log (m log).1 (last (m log).1).1 (h.adds log) (k.adds (m log).1));
  }

pub ruleset emits =
    (pure-Emits, throw-Emits, exec-Emits, now-Emits, >>=-Emits, try_catch-Emits, try_finally-Emits)
