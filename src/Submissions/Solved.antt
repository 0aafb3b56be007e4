-- ===== src/Submissions/Solved.antt =====
-- `getSolvedProblems` and `getsolvedProblemsCount` of src/submissions/submissions.repository.ts, over
-- the rows of the two tables, the problems in the order of their ids. A stored submission has the
-- time of its creation with it.
use judge_it.Prelude.{
  ℕ, ◌+◌, ◌≤◌, ◌<◌, ◌≡◌, refl, ap, sym, ◌∙◌, Bool, true, false, ◌&&◌, List, [], ◌∷◌, Option, none,
  some, map, arith, if◌then◌else◌, ltb, ◌==◌, length, count, All, Bool-cases, inl, inr,
}
use judge_it.Prelude.Maps.{has}
use judge_it.Prelude.Text.{Text}
use judge_it.Submissions.Repository.{Submission, where_solved}

pub record Problem : Type 0 where
  pub id : ℕ
  pub title : Text
  pub difficulty : Text

pub record SolvedProblemResult : Type 0 where
  pub id : ℕ
  pub title : Text
  pub difficulty : Text
  pub execution_time : Option ℕ
  pub memory_user : Option ℕ
  pub solved_at : ℕ

abbrev pub Stored : Type 0
Stored = Submission × ℕ

abbrev pub matching {ℓ} : {A : Type ℓ} → (A → Bool) → List A → List A
matching test [] = []
matching test (x ∷ xs) = let rest = matching test xs in if test x then x ∷ rest else rest

-- The first row by `created_at DESC`.
abbrev pub later : Stored → Option Stored → Stored
later r none = r
later r (some q) = if ltb r.1 q.1 then q else r

abbrev pub latest : List Stored → Option Stored
latest [] = none
latest (r ∷ rs) = some (later r (latest rs))

-- The rows that the join has for a problem.
abbrev pub joined : ℕ → Problem → Stored → Bool
joined user_id p r = r.0.problem_id == p.id && where_solved user_id r.0

abbrev pub solved_row :
    Problem → Option Stored → List SolvedProblemResult → List SolvedProblemResult
solved_row p none rest = rest
solved_row p (some r) rest =
    record {
      id = p.id;
      title = p.title;
      difficulty = p.difficulty;
      execution_time = r.0.execution_time;
      memory_user = r.0.memory_user;
      solved_at = r.1;
    }
    ∷ rest

-- `SELECT DISTINCT ON (p.id)`: the first row of each problem that has one.
unfoldable pub get_solved_problems : ℕ → List Problem → List Stored → List SolvedProblemResult
get_solved_problems user_id [] rows = []
get_solved_problems user_id (p ∷ ps) rows =
    solved_row p (latest (matching (joined user_id p) rows)) (get_solved_problems user_id ps rows)

abbrev pub distinct : List ℕ → List ℕ
distinct [] = []
distinct (x ∷ xs) = let rest = distinct xs in if has x xs then rest else x ∷ rest

-- `groupBy` the problem, of which only the number of groups is used.
abbrev pub solved_ids : ℕ → List Stored → List ℕ
solved_ids user_id rows = map (λ r. r.0.problem_id) (matching (λ r. where_solved user_id r.0) rows)

unfoldable pub get_solved_problems_count : ℕ → List Stored → ℕ
get_solved_problems_count user_id rows = length (distinct (solved_ids user_id rows))

-- How many of some ids a list has.
abbrev hits : List ℕ → List ℕ → ℕ
hits [] xs = 0
hits (p ∷ ps) xs = (if has p xs then 1 else 0) + hits ps xs

hits_nil : (ps : List ℕ) → hits ps [] ≡ 0
hits_nil [] = refl
hits_nil (p ∷ ps) = omega (arith, hits_nil ps)

hits_cons :
    (ps xs : List ℕ) (x : ℕ) → hits ps (x ∷ xs) ≡ hits ps xs + (if has x xs then 0 else count x ps)
hits_cons [] xs x = ground arith
hits_cons (p ∷ ps) xs x = ground (arith, hits_cons ps xs x)

count-has : (x : ℕ) (ps : List ℕ) → has x ps ≡ true → 0 < count x ps
count-has x [] h = cc
count-has x (p ∷ ps) h = ground (arith, count-has x ps)

length-distinct :
    (ps xs : List ℕ)
    → ((x : ℕ) → count x ps ≤ 1)
    → All (λ x. has x ps ≡ true) xs
    → length (distinct xs) ≡ hits ps xs
length-distinct ps [] unique known = sym (hits_nil ps)
length-distinct ps (x ∷ xs) unique known = ground (
  arith,
  hits_cons ps xs x,
  count-has x ps known.0,
  unique x,
  length-distinct ps xs unique known.1,
)

abbrev is_some : Option Stored → Bool
is_some none = false
is_some (some r) = true

latest-joined :
    (user_id : ℕ) (p : Problem) (rows : List Stored)
    → is_some (latest (matching (joined user_id p) rows)) ≡ has p.id (solved_ids user_id rows)
latest-joined user_id p [] = refl
latest-joined user_id p (r ∷ rows) = elim (Bool-cases (where_solved user_id r.0)) [
  | inl solved ↦ elim (Bool-cases (r.0.problem_id == p.id)) [
    | inl same ↦ rw (solved, same) refl
    | inr other ↦ rw (solved, other) (latest-joined user_id p rows)
  ]
  | inr unsolved ↦ elim (Bool-cases (r.0.problem_id == p.id)) [
    | inl same ↦ rw (unsolved, same) (latest-joined user_id p rows)
    | inr other ↦ rw (unsolved, other) (latest-joined user_id p rows)
  ]
]

length-solved_row :
    (p : Problem) (o : Option Stored) (rest : List SolvedProblemResult)
    → length (solved_row p o rest) ≡ (if is_some o then 1 else 0) + length rest
length-solved_row p none rest = omega arith
length-solved_row p (some r) rest = omega arith

length-get_solved_problems :
    (user_id : ℕ) (ps : List Problem) (rows : List Stored)
    → length (get_solved_problems user_id ps rows)
      ≡ hits (map (λ p. p.id) ps) (solved_ids user_id rows)
unfolding get_solved_problems
length-get_solved_problems user_id [] rows = refl
length-get_solved_problems user_id (p ∷ ps) rows =
    let first = latest (matching (joined user_id p) rows) in
    length-solved_row p first (get_solved_problems user_id ps rows)
    ∙ ap (λ b. (if b then 1 else 0) + length (get_solved_problems user_id ps rows))
        (latest-joined user_id p rows)
    ∙ ap (λ n. (if has p.id (solved_ids user_id rows) then 1 else 0) + n)
        (length-get_solved_problems user_id ps rows)

solved_ids-known :
    (user_id : ℕ) (ids : List ℕ) (rows : List Stored)
    → All (λ r. has r.0.problem_id ids ≡ true) rows
    → All (λ x. has x ids ≡ true) (solved_ids user_id rows)
solved_ids-known user_id ids [] known = tt
solved_ids-known user_id ids (r ∷ rows) known = elim (Bool-cases (where_solved user_id r.0)) [
  | inl solved ↦ rw solved (known.0, solved_ids-known user_id ids rows known.1)
  | inr unsolved ↦ rw unsolved (solved_ids-known user_id ids rows known.1)
]

-- Where no two problems have one id and the problem of every submission is there, the count of the
-- solved problems is the length of their list.
pub solved_counted :
    (user_id : ℕ) (ps : List Problem) (rows : List Stored)
    → ((x : ℕ) → count x (map (λ p. p.id) ps) ≤ 1)
    → All (λ r. has r.0.problem_id (map (λ p. p.id) ps) ≡ true) rows
    → get_solved_problems_count user_id rows ≡ length (get_solved_problems user_id ps rows)
unfolding get_solved_problems_count
solved_counted user_id ps rows unique known =
    let ids = map (λ p. p.id) ps in
    length-distinct ids (solved_ids user_id rows) unique (solved_ids-known user_id ids rows known)
    ∙ sym (length-get_solved_problems user_id ps rows)
