-- ===== src/Prelude/Actions.antt =====
-- Code that reads and changes a state, and returns or throws; what it changed before it threw stays.
use mathlib.Core.Path.{◌≡◌, refl, ap}
use mathlib.Core.Bool.{Bool, true, false}
use mathlib.Core.Option.{Option, none, some}
use judge_it.Prelude.Results.{Result, done, thrown}

abbrev pub Action {ℓ κ μ} : Type ℓ → Type κ → Type μ → Type (ℓ ⊔ κ ⊔ μ)
Action S E A = S → Result E A × S

module _ {ℓ κ μ} {S : Type ℓ} {E : Type κ} {A : Type μ} where
  abbrev pub pure : A → Action S E A
  pure a s = (done a, s)

  abbrev pub throw : E → Action S E A
  throw e s = (thrown e, s)

  -- A read of the state, and a result that needs no state.
  abbrev pub gets : (S → A) → Action S E A
  gets f s = (done (f s), s)

  abbrev pub lift : Result E A → Action S E A
  lift r s = (r, s)

  -- A call that reads the state and may throw.
  abbrev pub asks : (S → Result E A) → Action S E A
  asks f s = (f s, s)

  -- `if (!x) throw e`, for an `x` that may be missing.
  abbrev pub present : Option A → E → Action S E A
  present none e = throw e
  present (some a) e = pure a

module _ {ℓ κ μ ν} {S : Type ℓ} {E : Type κ} {A : Type μ} {B : Type ν} where
  abbrev pub continue : Result E A × S → (A → Action S E B) → Result E B × S
  continue (done a, s) f = f a s
  continue (thrown e, s) f = (thrown e, s)

  abbrev pub ◌>>=◌ : Action S E A → (A → Action S E B) → Action S E B
  ◌>>=◌ m f s = continue (m s) f

  abbrev pub ◌>>◌ : Action S E A → Action S E B → Action S E B
  ◌>>◌ m k s = continue (m s) (λ _. k)

  pub continue-eq-done :
      (r : Result E A × S) (f : A → Action S E B) {b : B} {t : S}
      → continue r f ≡ (done b, t)
      → (a : A) × (s : S) × (r ≡ (done a, s)) × (f a s ≡ (done b, t))
  continue-eq-done (done a, s) f h = (a, s, refl, h)
  continue-eq-done (thrown e, s) f h = cc

abbrev value_or {κ μ} : {E : Type κ} {A : Type μ} → A → Result E A → A
value_or a (done b) = b
value_or a (thrown e) = a

module _ {ℓ κ μ} {S : Type ℓ} {E : Type κ} {A : Type μ} where
  pub pure-eq-done :
      {a b : A} {s t : S} → pure {S = S} {E = E} a s ≡ (done b, t) → (a ≡ b) × (s ≡ t)
  pure-eq-done {a} h = (ap (λ p. value_or a p.0) h, ap (λ p. p.1) h)

  pub asks-eq-done :
      {r : Result E A} {b : A} {s t : S} → lift {S = S} r s ≡ (done b, t) → (r ≡ done b) × (s ≡ t)
  asks-eq-done h = (ap (λ p. p.0) h, ap (λ p. p.1) h)

infixl 5 ◌>>=◌ ◌>>◌
module _ {ℓ κ} {S : Type ℓ} {E : Type κ} where
  -- `if (!test) throw e`.
  abbrev pub check : Bool → E → Action S E (Unit {0})
  check true e = pure tt
  check false e = throw e

module _ {ℓ κ} {S : Type ℓ} {E : Type κ} where
  pub check-eq-done :
      (test : Bool) (e : E) {u : Unit {0}} {s t : S}
      → check {S = S} test e s ≡ (done u, t)
      → (test ≡ true) × (s ≡ t)
  check-eq-done true e h = (refl, (pure-eq-done h).1)
  check-eq-done false e h = cc

module _ {ℓ κ μ} {S : Type ℓ} {E : Type κ} {A : Type μ} where
  pub present-eq-done :
      (o : Option A) (e : E) {a : A} {s t : S}
      → present {S = S} o e s ≡ (done a, t)
      → (o ≡ some a) × (s ≡ t)
  present-eq-done none e h = cc
  present-eq-done (some b) e h = (ap some (pure-eq-done h).0, (pure-eq-done h).1)
