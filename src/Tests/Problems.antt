-- ===== src/Tests/Problems.antt =====
-- A request for problems at a concrete input: a table of two rows.
use judge_it.Prelude.{
  ℕ, ◌≡◌, refl, true, false, List, [], ◌∷◌, none, some, All, Bool-cases, inl, inr, if◌then◌else◌,
}
use judge_it.Prelude.Text.{Text, text}
use judge_it.Problems.{
  one_of, ProblemFilterDto, Query, Found, Database, query_of, where_difficulty, find_problems,
  order_by,
}
use judge_it.Problems.Found.{page, Laws}

abbrev row_of : ℕ → Text → Found
row_of id difficulty = (
  record {
    problem = record {
      id = id;
      title = text "t";
      slug = text "s";
      difficulty = difficulty;
      description = text "d";
    };
    memory_limit = 256;
    time_limit = 2;
  },
  none,
)

abbrev passing : Query → List Found → List Found
passing q [] = []
passing q (r ∷ rs) = let rest = passing q rs in if q.where_ r.0 then r ∷ rest else rest

passing-All : (q : Query) (rs : List Found) → All (λ r. q.where_ r.0 ≡ true) (passing q rs)
passing-All q [] = tt
passing-All q (r ∷ rs) = elim (Bool-cases (q.where_ r.0)) [
  | inl e ↦ rw e (e, passing-All q rs)
  | inr e ↦ rw e (passing-All q rs)
]

abbrev table : Database (List Found)
table = record {
  find_unique_by_id = λ id s. none;
  find_unique_by_slug = λ slug s. none;
  find_many = λ q s. page q.take_ q.skip (passing q s);
}

table-Laws : Laws table
table-Laws = record { rows = passing; find_many_lem = λ q s. refl; rows_lem = passing-All }

abbrev filter : ProblemFilterDto
filter = record {
  difficulty = some (one_of (text "easy" ∷ text "medium" ∷ []));
  sort_by = none;
  sort_order = none;
  limit = some 1;
  offset = none;
  include_submissions = false;
}

abbrev rows : List Found
rows = row_of 1 (text "hard") ∷ row_of 2 (text "easy") ∷ row_of 3 (text "medium") ∷ []

found_test : find_problems table filter rows ≡ row_of 2 (text "easy") ∷ []
unfolding find_problems query_of where_difficulty order_by
found_test = refl
