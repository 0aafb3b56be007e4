-- ===== src/Users/Ids.antt =====
-- src/common/utils/id-generator.ts: the suffix of a name. What `Math.floor(Math.random() * n)` gives in
-- each round of the loop is a parameter.
use judge_it.Prelude.{ℕ, zero, suc, ◌+◌, ◌<◌, ◌≡◌, refl, [], ◌∷◌, ◌++◌, All, arith, length}
use judge_it.Prelude.Text.{Text, text}

abbrev pub characters : Text
characters = text "ABCDEFGHIJKLMNOPQRSTUVWXYZabcdefghijklmnopqrstuvwxyz0123456789"

-- `charAt`, which is empty out of range.
abbrev char_at : Text → ℕ → Text
char_at [] i = []
char_at (c ∷ s) zero = c ∷ []
char_at (c ∷ s) (suc i) = char_at s i

module _ (draw : ℕ → ℕ) where
  -- The rounds from `i` on, of which `n` are left.
  abbrev rounds : ℕ → ℕ → Text
  rounds i zero = []
  rounds i (suc n) = char_at characters (draw i) ++ rounds (i + 1) n

  unfoldable pub get_id : ℕ → Text
  get_id n = rounds 0 n

pub data Among (s : Text) : ℕ → Type 0 where
  at : (i c : ℕ) → char_at s i ≡ c ∷ [] → Among s c

char_at-there : (s : Text) (i : ℕ) → i < length s → (c : ℕ) × (char_at s i ≡ c ∷ [])
char_at-there [] i h = absurd (omega arith)
char_at-there (c ∷ s) zero h = (c, refl)
char_at-there (c ∷ s) (suc i) h = char_at-there s i (omega arith)

rounds_lem :
    (draw : ℕ → ℕ) (i n : ℕ)
    → ((k : ℕ) → draw k < length characters)
    → (length (rounds draw i n) ≡ n) × All (Among characters) (rounds draw i n)
rounds_lem draw i zero h = (refl, tt)
rounds_lem draw i (suc n) h =
    let (c, e) = char_at-there characters (draw i) (h i) in
    let (long, all) = rounds_lem draw (i + 1) n h in
    rw e (omega (arith, long), (at (draw i) c e, all))

-- An id has the length that was asked for, and each of its characters is one of the 62.
pub get_id_lem :
    (draw : ℕ → ℕ) (n : ℕ)
    → ((k : ℕ) → draw k < length characters)
    → (length (get_id draw n) ≡ n) × All (Among characters) (get_id draw n)
unfolding get_id
get_id_lem draw n h = rounds_lem draw 0 n h
