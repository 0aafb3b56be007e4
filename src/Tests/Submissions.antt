-- ===== src/Tests/Submissions.antt =====
-- The theorems on src/submissions at concrete inputs, over a table that is a list of rows.
use judge_it.Prelude.{
  ℕ, ◌≡◌, refl, sym, ap, List, [], ◌∷◌, ◌++◌, Bool, none, some, arith, length, take, drop, map,
  if◌then◌else◌, ◌==◌,
}
use judge_it.Prelude.Actions.{pure-eq-done}
use judge_it.Prelude.Results.{done}
use judge_it.Prelude.Text.{text}
use judge_it.Submissions.Pages.{first_pages, pages_cover}
use judge_it.Submissions.Service.{PaginationDto}
use judge_it.Submissions.Solved.{Problem, Stored, get_solved_problems}
use judge_it.Validation.Languages.{KeepsLanguage}
use judge_it.Submissions.Repository.{
  Submission, SubmissionDto, Database, Laws, where_, add_submission, get_all_submissions, submit,
}

abbrev matching : (Submission → Bool) → List Submission → List Submission
matching test [] = []
matching test (row ∷ rows) = let rest = matching test rows in if test row then row ∷ rest else rest

abbrev pub row_of : ℕ → ℕ → Submission
row_of id user_id = record {
  id = id;
  user_id = user_id;
  problem_id = 4;
  language = text "cpp";
  source_code = text "x";
  verdicate = text "ACC";
  execution_time = none;
  memory_user = none;
}

abbrev stored : ℕ → ℕ → SubmissionDto → Submission
stored id user_id dto = record (row_of id user_id) { language = dto.language }

-- Problem 4 is the only one; what is stored gets the next id.
abbrev pub table : Database (List Submission)
table = record {
  problem_find = λ id s. if id == 4 then some 4 else none;
  submission_create = λ user_id dto s.
      (done (stored (length s) user_id dto), s ++ stored (length s) user_id dto ∷ []);
  submission_update = λ id judged s. (done (row_of id 0), s);
  submission_find = λ id s. none;
  submission_find_many = λ test skip n s. take n (drop skip (matching test s));
  submission_count = λ test s. length (matching test s);
  result_create_many = λ results s. (done 0, s);
  send_message = λ event s. (done tt, s);
}

abbrev pub table-Laws : Laws table
table-Laws = record {
  rows = matching;
  find_many_lem = λ test skip n s. refl;
  count_lem = λ test s. refl;
}

pub table-KeepsLanguage : KeepsLanguage table
table-KeepsLanguage dto user_id s t row h = sym (ap (λ r. r.language) (pure-eq-done h).0)

abbrev pub three : List Submission
three = row_of 0 1 ∷ row_of 1 2 ∷ row_of 2 1 ∷ row_of 3 1 ∷ []

pages_cover_example :
    first_pages table 1 none 2
      (get_all_submissions table 1 none (some 2) none three).1.total_pages
      three
    ≡ table-Laws.rows (where_ 1 none) three
pages_cover_example = pages_cover table table-Laws 1 none 2 none three (omega arith)

two_pages : (get_all_submissions table 1 none (some 2) none three).1.total_pages ≡ 2
unfolding get_all_submissions
two_pages = refl

abbrev pub dto : SubmissionDto
dto = record { problem_id = 4; source_code = text "x"; language = text "cpp" }

submitted : submit table dto (text "1") 1 [] ≡ (done (row_of 0 1), row_of 0 1 ∷ [])
unfolding submit add_submission
submitted = refl

abbrev pub second_page : PaginationDto
second_page = record { limit = 2; offset = 2 }

abbrev pub solved_twice : List Stored
solved_twice =
    (record (row_of 0 1) { verdicate = text "ACCEPTED" }, 5)
    ∷ (record (row_of 1 1) { verdicate = text "ACCEPTED" }, 7)
    ∷ (row_of 2 1, 9)
    ∷ []

abbrev pub known : List Problem
known =
    record { id = 4; title = text "sum"; difficulty = text "easy" }
    ∷ record { id = 6; title = text "max"; difficulty = text "hard" }
    ∷ []

-- Two accepted submissions of one problem are one solved problem, with the time of the last.
solved_test : map (λ p. p.solved_at) (get_solved_problems 1 known solved_twice) ≡ 7 ∷ []
unfolding get_solved_problems
solved_test = refl
