-- ===== src/Worker/Semaphore/Boxes.antt =====
-- The boxes named in a list of holders.
use judge_it.Prelude.{
  ℕ, zero, suc, ◌+◌, ◌≡◌, inl, inr, List, [], ◌∷◌, ◌++◌, map, some, arith, count, take_at, length,
  ◌==◌, if◌then◌else◌, Option-cases,
}

module _ {ℓ} {A : Type ℓ} where
  abbrev pub boxes : List (A × ℕ) → List ℕ
  boxes = map (λ h. h.1)

  pub count-boxes-append :
      (b : ℕ) (xs ys : List (A × ℕ))
      → count b (boxes (xs ++ ys)) ≡ count b (boxes xs) + count b (boxes ys)
  count-boxes-append b [] ys = omega arith
  count-boxes-append b (x ∷ xs) ys = omega (arith, count-boxes-append b xs ys)

  pub count-take_at :
      (b i : ℕ) (xs : List (A × ℕ)) {g : A × ℕ} {rest : List (A × ℕ)}
      → take_at i xs ≡ some (g, rest)
      → count b (boxes xs) ≡ (if g.1 == b then 1 else 0) + count b (boxes rest)
  count-take_at b i [] h = cc
  count-take_at b zero (x ∷ xs) h = ground arith
  count-take_at b (suc i) (x ∷ xs) h = elim (Option-cases (take_at i xs)) [
    | inl e ↦ ground arith
    | inr (p, e) ↦ ground (arith, count-take_at b i xs e)
  ]

  pub length-take_at :
      (i : ℕ) (xs : List (A × ℕ)) {g : A × ℕ} {rest : List (A × ℕ)}
      → take_at i xs ≡ some (g, rest)
      → length xs ≡ suc (length rest)
  length-take_at i [] h = cc
  length-take_at zero (x ∷ xs) h = ground arith
  length-take_at (suc i) (x ∷ xs) h = elim (Option-cases (take_at i xs)) [
    | inl e ↦ ground arith
    | inr (p, e) ↦ ground (arith, length-take_at i xs e)
  ]
