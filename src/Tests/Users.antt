-- ===== src/Tests/Users.antt =====
-- The profile of a user at a concrete input: a user with two accepted submissions of one problem.
use judge_it.Prelude.{
  ℕ, ◌≡◌, ◌≤◌, ◌*◌, refl, [], ◌∷◌, none, some, arith, count, map, if◌then◌else◌, ◌==◌,
}
use judge_it.Prelude.Results.{done, thrown}
use judge_it.Prelude.Text.{text}
use judge_it.Submissions.Solved.{get_solved_problems}
use judge_it.Submissions.Service as Service
use judge_it.Tests.Submissions.{solved_twice, known}
use judge_it.Users.Ids.{get_id}
use judge_it.Users.Prisma.{Prisma}
use judge_it.Users.Profile.{UserProfile, get_profile}
use judge_it.Users.Repository as Repository
use judge_it.Users.Types.{User, Error, failure}

abbrev user : User
user = record {
  id = 1;
  email = text "a@b.c";
  hash = none;
  hashed_rt = none;
  role = [];
  username = text "a";
}

abbrev lost : Error
lost = failure (text "lost")

-- A database of one user that cannot be changed.
abbrev fixed : Prisma ℕ
fixed = record {
  user_create = λ new accounts s. (thrown lost, s);
  user_find_by_email = λ email s. none;
  user_find_by_id = λ id s. if id == 1 then some user else none;
  user_delete = λ id s. (thrown lost, s);
  user_update = λ id p s. (thrown lost, s);
  user_update_many = λ test p s. s;
  accounts_of = λ id s. [];
  account_find = λ provider id s. none;
  account_create = λ id new s. (thrown lost, s);
  account_update = λ id tokens s. (thrown lost, s);
  token_create = λ id hash expires_at s. (thrown lost, s);
  token_find = λ hash s. none;
  token_mark_used = λ id s. (thrown lost, s);
}

abbrev profile : UserProfile
profile = record {
  username = text "a";
  email = text "a@b.c";
  solved_problems_count = 1;
  submissions_count = 3;
  recent_ac_problems =
      record {
        id = 4;
        title = text "sum";
        difficulty = text "easy";
        execution_time = none;
        memory_user = none;
        solved_at = 7;
      }
      ∷ [];
}

got :
    get_profile fixed (λ s. 0) (λ n s. []) (λ id s. 3) (λ s. known) (λ s. solved_twice) 1 0
    ≡ (done profile, 0)
unfolding get_profile Repository.find_by_id Service.get_solved_problems get_solved_problems
got = refl

unique : (x : ℕ) → count x (map (λ p. p.id) known) ≤ 1
unique x = ground arith

-- An id of four characters.
id_test : get_id (λ k. k * 20) 4 ≡ text "AUo8"
unfolding get_id
id_test = refl
