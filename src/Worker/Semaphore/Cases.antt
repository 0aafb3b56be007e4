-- ===== src/Worker/Semaphore/Cases.antt =====
-- The two outcomes of `acquire` and of `release`, for proofs that keep both shut.
use judge_it.Prelude.{
  ℕ, ◌+◌, ◌-◌, ◌≡◌, refl, ◌⊎◌, inl, inr, List, [], ◌∷◌, ◌++◌, none, some, arith, length,
}
use judge_it.Worker.Semaphore.{Semaphore, resolved, pending, acquire, release}

abbrev pub Acquires {ℓ} : {A : Type ℓ} → Semaphore A → A → Type ℓ
Acquires s caller =
    ((box : ℕ) × (rest : List ℕ) × (s.available_boxes ≡ box ∷ rest)
      × (acquire s caller
          ≡ (record s { count = s.count - 1; available_boxes = rest }, resolved (some box))))
    ⊎ ((s.count ≡ 0) × (acquire s caller ≡ (record s { queue = s.queue ++ caller ∷ [] }, pending)))

acquire-cases_of {ℓ} :
    {A : Type ℓ} (s : Semaphore A) (caller : A) (boxes : List ℕ)
    → s.available_boxes ≡ boxes
    → s.count ≡ length boxes
    → Acquires s caller
unfolding acquire
acquire-cases_of s caller [] e counted = inr (ground arith, ground arith)
acquire-cases_of s caller (box ∷ rest) e counted = inl (box, rest, e, ground arith)

-- While `count` is the number of free boxes, `acquire` takes the first of them or waits.
pub acquire-cases {ℓ} :
    {A : Type ℓ} (s : Semaphore A) (caller : A)
    → s.count ≡ length s.available_boxes
    → Acquires s caller
acquire-cases s caller counted = acquire-cases_of s caller s.available_boxes refl counted

abbrev pub Releases {ℓ} : {A : Type ℓ} → Semaphore A → ℕ → Type ℓ
Releases {A} s box =
    ((s.queue ≡ [])
      × (release s box ≡ (
        record s { available_boxes = s.available_boxes ++ box ∷ []; count = s.count + 1 },
        none,
      )))
    ⊎ ((next : A) × (rest : List A) × (s.queue ≡ next ∷ rest)
        × (release s box ≡ (record s { queue = rest }, some (next, box))))

release-cases_of {ℓ} :
    {A : Type ℓ} (s : Semaphore A) (box : ℕ) (waiting : List A) → s.queue ≡ waiting → Releases s box
unfolding release
release-cases_of s box [] e = inl (e, ground arith)
release-cases_of s box (next ∷ rest) e = inr (next, rest, e, ground arith)

pub release-cases {ℓ} : {A : Type ℓ} (s : Semaphore A) (box : ℕ) → Releases s box
release-cases s box = release-cases_of s box s.queue refl
