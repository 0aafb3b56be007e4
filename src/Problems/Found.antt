-- ===== src/Problems/Found.antt =====
-- What a request for problems with a filter finds.
use judge_it.Prelude.{
  ℕ, zero, suc, ◌≤◌, ◌≡◌, refl, ◌⊎◌, inl, inr, true, List, [], ◌∷◌, Option, none, some, arith,
  length, take, drop, All, Bool-cases,
}
use judge_it.Prelude.Eq.{text_beq, text_beq_iff}
use judge_it.Prelude.Text.{Text}
use judge_it.Problems.{
  ProblemRow, Difficulty, one, one_of, ProblemFilterDto, Query, Found, Database, includes,
  where_difficulty, query_of, find_problems,
}

abbrev pub page : Option ℕ → Option ℕ → List Found → List Found
page none none rows = rows
page none (some o) rows = drop o rows
page (some n) none rows = take n rows
page (some n) (some o) rows = take n (drop o rows)

-- What `findMany` is relied on for: a page of rows that pass the `where`, in some order.
pub record Laws {S : Type 0} (db : Database S) : Type 0 where
  pub rows : Query → S → List Found
  pub find_many_lem : (q : Query) (s : S) → db.find_many q s ≡ page q.take_ q.skip (rows q s)
  pub rows_lem : (q : Query) (s : S) → All (λ r. q.where_ r.0 ≡ true) (rows q s)

take-All : (P : Found → Type 0) (n : ℕ) (rs : List Found) → All P rs → All P (take n rs)
take-All P zero rs h = tt
take-All P (suc n) [] h = tt
take-All P (suc n) (r ∷ rs) h = (h.0, take-All P n rs h.1)

drop-All : (P : Found → Type 0) (n : ℕ) (rs : List Found) → All P rs → All P (drop n rs)
drop-All P zero rs h = h
drop-All P (suc n) [] h = tt
drop-All P (suc n) (r ∷ rs) h = drop-All P n rs h.1

page-All : (P : Found → Type 0) (n o : Option ℕ) (rs : List Found) → All P rs → All P (page n o rs)
page-All P none none rs h = h
page-All P none (some o) rs h = drop-All P o rs h
page-All P (some n) none rs h = take-All P n rs h
page-All P (some n) (some o) rs h = take-All P n (drop o rs) (drop-All P o rs h)

length-take-le : (n : ℕ) (rs : List Found) → length (take n rs) ≤ n
length-take-le zero rs = omega arith
length-take-le (suc n) [] = omega arith
length-take-le (suc n) (r ∷ rs) = omega (arith, length-take-le n rs)

abbrev pub IsWithin : Option ℕ → ℕ → Type 0
IsWithin none k = Unit
IsWithin (some n) k = k ≤ n

length-page : (n o : Option ℕ) (rs : List Found) → IsWithin n (length (page n o rs))
length-page none o rs = tt
length-page (some n) none rs = length-take-le n rs
length-page (some n) (some o) rs = length-take-le n (drop o rs)

abbrev pub IsListed : Text → List Text → Type 0
IsListed d [] = ⊥
IsListed d (x ∷ xs) = (x ≡ d) ⊎ IsListed d xs

-- What a filter says of a difficulty.
abbrev pub Asked : Option Difficulty → Text → Type 0
Asked none d = Unit
Asked (some (one x)) d = (x ≡ []) ⊎ (d ≡ x)
Asked (some (one_of xs)) d = IsListed d xs

includes-IsListed : (xs : List Text) (d : Text) → includes xs d ≡ true → IsListed d xs
includes-IsListed [] d h = absurd (ground arith)
includes-IsListed (x ∷ xs) d h = elim (Bool-cases (text_beq x d)) [
  | inl e ↦ inl ((text_beq_iff x d).0 e)
  | inr e ↦ inr (includes-IsListed xs d (ground (arith, e, h)))
]

where_difficulty-Asked :
    (o : Option Difficulty) (row : ProblemRow)
    → where_difficulty o row ≡ true
    → Asked o row.problem.difficulty
unfolding where_difficulty
where_difficulty-Asked none row h = tt
where_difficulty-Asked (some (one [])) row h = inl refl
where_difficulty-Asked (some (one (c ∷ cs))) row h =
    inr ((text_beq_iff row.problem.difficulty (c ∷ cs)).0 h)
where_difficulty-Asked (some (one_of xs)) row h = includes-IsListed xs row.problem.difficulty h

All-map : (P Q : Found → Type 0) (rs : List Found) → ((r : Found) → P r → Q r) → All P rs → All Q rs
All-map P Q [] f h = tt
All-map P Q (r ∷ rs) f h = (f r h.0, All-map P Q rs f h.1)

module _ {S : Type 0} (db : Database S) (laws : Laws db) where
  -- The problems that a request finds are of a difficulty that its filter asks for, where it asks
  -- for one or for several (an empty text asks for none), and are at most as many as its limit,
  -- where it has one.
  pub find_problems-Asked :
      (filter : ProblemFilterDto) (s : S)
      → All (λ r. Asked filter.difficulty r.0.problem.difficulty) (find_problems db filter s)
        × IsWithin filter.limit (length (find_problems db filter s))
  unfolding find_problems query_of
  find_problems-Asked filter s =
      let q = query_of filter in
      let rows = laws.rows q s in
      rw (laws.find_many_lem q s) (
        page-All (λ r. Asked filter.difficulty r.0.problem.difficulty) filter.limit filter.offset
            rows
            (All-map (λ r. q.where_ r.0 ≡ true) _ rows
              (λ r h. where_difficulty-Asked filter.difficulty r.0 h) (laws.rows_lem q s)),
        length-page filter.limit filter.offset rows,
      )
