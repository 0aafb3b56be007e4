-- ===== src/Problems.antt =====
-- src/problems: the problems, their filters and their limits. The calls of the database client are
-- an interface over a state that is not described; the service and the controller pass calls on.
pub mod Found
use judge_it.Prelude.{
  ℕ, ◌≡◌, Bool, true, false, ◌||◌, List, [], ◌∷◌, ◌++◌, Option, none, some, length, take, drop, map,
}
use judge_it.Prelude.Actions.{Action, ◌>>=◌, gets, pure, present}
use judge_it.Prelude.Eq.{text_beq}
use judge_it.Prelude.Numbers.{show_nat}
use judge_it.Prelude.Text.{Text, text, is_nil}
use judge_it.Judge.Service.{ProblemDetails}
use judge_it.Users.Types.{Error, not_found}

-- A row of the table, and src/types/problem.type.ts for the part that is selected.
pub record Problem : Type 0 where
  pub id : ℕ
  pub title : Text
  pub slug : Text
  pub difficulty : Text
  pub description : Text

pub record ProblemRow : Type 0 where
  pub problem : Problem
  pub memory_limit : ℕ
  pub time_limit : ℕ

-- src/dto/problem-filter.dto.ts, with whole numbers for the page.
pub data Difficulty : Type 0 where
  one : Text → Difficulty
  one_of : List Text → Difficulty

pub data SortKey : Type 0 where
  by_id by_title by_created_at by_difficulty : SortKey

pub data SortOrder : Type 0 where
  asc desc : SortOrder

pub record ProblemFilterDto : Type 0 where
  pub difficulty : Option Difficulty
  pub sort_by : Option SortKey
  pub sort_order : Option SortOrder
  pub limit : Option ℕ
  pub offset : Option ℕ
  pub include_submissions : Bool

-- The argument of `findMany`, with its `where` as a test.
pub record Query : Type 0 where
  pub where_ : ProblemRow → Bool
  pub order_by : Option (SortKey × SortOrder)
  pub include_submissions : Bool
  pub take_ : Option ℕ
  pub skip : Option ℕ

-- A row that was found, with the ids of its submissions where they are included.
abbrev pub Found : Type 0
Found = ProblemRow × Option (List ℕ)

pub record Database (S : Type 0) : Type 0 where
  pub find_unique_by_id : ℕ → S → Option ProblemRow
  pub find_unique_by_slug : Text → S → Option ProblemRow
  pub find_many : Query → S → List Found

abbrev pub includes : List Text → Text → Bool
includes [] d = false
includes (x ∷ xs) d = text_beq x d || includes xs d

-- An empty text is no filter; an empty list is one that no row passes.
unfoldable pub where_difficulty : Option Difficulty → ProblemRow → Bool
where_difficulty none row = true
where_difficulty (some (one d)) row = is_nil d || text_beq row.problem.difficulty d
where_difficulty (some (one_of ds)) row = includes ds row.problem.difficulty

abbrev pub or_asc : Option SortOrder → SortOrder
or_asc none = asc
or_asc (some o) = o

unfoldable pub order_by : Option SortKey → Option SortOrder → Option (SortKey × SortOrder)
order_by none order = none
order_by (some key) order = some (key, or_asc order)

unfoldable pub query_of : ProblemFilterDto → Query
query_of filter = record {
  where_ = where_difficulty filter.difficulty;
  order_by = order_by filter.sort_by filter.sort_order;
  include_submissions = filter.include_submissions;
  take_ = filter.limit;
  skip = filter.offset;
}

abbrev selected : Option ProblemRow → Option Problem
selected none = none
selected (some row) = some row.problem

module _ {S : Type 0} (db : Database S) where
  unfoldable pub get_problem_by_id : ℕ → S → Option Problem
  get_problem_by_id id s = selected (db.find_unique_by_id id s)

  unfoldable pub get_problem_by_slug : Text → S → Option Problem
  get_problem_by_slug slug s = selected (db.find_unique_by_slug slug s)

  unfoldable pub find_problems : ProblemFilterDto → S → List Found
  find_problems filter s = db.find_many (query_of filter) s

  unfoldable pub get_problem_details : ℕ → Action S Error ProblemDetails
  get_problem_details problem_id = do
    found ← gets (db.find_unique_by_id problem_id)
    row ←
        present found
          (not_found (text "Problem with id " ++ (show_nat problem_id ++ text " not found")))
    pure (record { memory_limit = row.memory_limit; time_limit = row.time_limit })

  -- The service, which the controller's requests call.
  abbrev pub get_all_problems : ProblemFilterDto → S → List Found
  get_all_problems filter s = find_problems filter s

  abbrev pub get_problem : ℕ → S → Option Problem
  get_problem id s = get_problem_by_id id s
