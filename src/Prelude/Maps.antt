-- ===== src/Prelude/Maps.antt =====
-- JavaScript's `Map` and `Set` of numbers, as lists in insertion order.
use Prim.Native.Nat.{ℕ}
use mathlib.Core.Path.{◌≡◌, refl}
use mathlib.Core.Bool.{Bool, false, ◌&&◌, ◌||◌, not}
use mathlib.Core.Option.{Option, none, some}
use mathlib.Core.List.{List, [], ◌∷◌, ◌++◌}
use native.Mathlib.Omega.{arith}
use judge_it.Prelude.Tests.{◌==◌, if◌then◌else◌}
use judge_it.Prelude.Eq.{Eq, ◌=?◌}

abbrev pub Map {ℓ κ} : Type ℓ → Type κ → Type (ℓ ⊔ κ)
Map K V = List (K × V)

module _ {ℓ κ} {K : Type ℓ} {V : Type κ} ⦃e : Eq K⦄ where
  unfoldable pub get : K → Map K V → Option V
  get k [] = none
  get k ((j, v) ∷ m) = if j =? k then some v else get k m

  -- `set`: a key that is present keeps its place.
  unfoldable pub put : K → V → Map K V → Map K V
  put k v [] = (k, v) ∷ []
  put k v ((j, w) ∷ m) = if j =? k then (k, v) ∷ m else (j, w) ∷ put k v m

  unfoldable pub delete : K → Map K V → Map K V
  delete k [] = []
  delete k ((j, v) ∷ m) = let rest = delete k m in if j =? k then rest else (j, v) ∷ rest

  pub get-put :
      (j k : K) (v : V) (m : Map K V) → get j (put k v m) ≡ (if k =? j then some v else get j m)
  unfolding get put
  get-put j k v [] = refl
  get-put j k v ((i, w) ∷ m) =
      ground (arith, e.beq_iff k j, e.beq_iff i k, e.beq_iff i j, get-put j k v m)

  pub get-delete : (j k : K) (m : Map K V) → get j (delete k m) ≡ (if k =? j then none else get j m)
  unfolding get delete
  get-delete j k [] = ground arith
  get-delete j k ((i, w) ∷ m) =
      ground (arith, e.beq_iff k j, e.beq_iff i k, e.beq_iff i j, get-delete j k m)

  -- A key that is absent is put at the end, and found there.
  pub put_absent : (k : K) (v : V) (m : Map K V) → get k m ≡ none → put k v m ≡ m ++ (k, v) ∷ []
  unfolding get put
  put_absent k v [] h = refl
  put_absent k v ((i, w) ∷ m) h = ground (arith, put_absent k v m)

  pub get_last : (k : K) (v : V) (m : Map K V) → get k m ≡ none → get k (m ++ (k, v) ∷ []) ≡ some v
  unfolding get
  get_last k v [] h = rw ((e.beq_iff k k).1 refl)
  get_last k v ((i, w) ∷ m) h = ground (arith, get_last k v m)

  pub put_last :
      (k : K) (v w : V) (m : Map K V)
      → get k m ≡ none
      → put k w (m ++ (k, v) ∷ []) ≡ m ++ (k, w) ∷ []
  unfolding get put
  put_last k v w [] h = rw ((e.beq_iff k k).1 refl)
  put_last k v w ((i, u) ∷ m) h = ground (arith, put_last k v w m)

  pub get_other :
      (j k : K) (v : V) (m : Map K V)
      → get j m ≡ none
      → (k =? j) ≡ false
      → get j (m ++ (k, v) ∷ []) ≡ none
  unfolding get
  get_other j k v [] h other = rw other
  get_other j k v ((i, w) ∷ m) h other = ground (arith, get_other j k v m)

-- `Set.has`, `Set.add` and `Set.delete`.
abbrev pub has : ℕ → List ℕ → Bool
has x [] = false
has x (y ∷ ys) = y == x || has x ys

abbrev pub add : ℕ → List ℕ → List ℕ
add x ys = if has x ys then ys else ys ++ x ∷ []

abbrev pub remove : ℕ → List ℕ → List ℕ
remove x [] = []
remove x (y ∷ ys) = let rest = remove x ys in if y == x then rest else y ∷ rest

pub has-append : (x : ℕ) (xs ys : List ℕ) → has x (xs ++ ys) ≡ (has x xs || has x ys)
has-append x [] ys = refl
has-append x (y ∷ xs) ys = ground (arith, has-append x xs ys)

pub has-add : (x y : ℕ) (ys : List ℕ) → has x (add y ys) ≡ (y == x || has x ys)
has-add x y ys = ground (arith, has-append x ys (y ∷ []))

pub has-remove : (x y : ℕ) (ys : List ℕ) → has x (remove y ys) ≡ (not (y == x) && has x ys)
has-remove x y [] = ground arith
has-remove x y (z ∷ ys) = ground (arith, has-remove x y ys)
