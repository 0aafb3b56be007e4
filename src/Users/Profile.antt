-- ===== src/Users/Profile.antt =====
-- `getProfile` of src/users/users.repository.ts and src/users/users.service.ts, and the requests of
-- src/users/users.controller.ts. The submissions of the service that it calls are those of the two
-- tables of Submissions.Solved.
use judge_it.Prelude.{
  ℕ, ◌≡◌, ◌≤◌, ap, sym, ◌∙◌, true, List, arith, length, take, count, map, All, zero, suc, [], ◌∷◌,
  if◌then◌else◌, ltb,
}
use judge_it.Prelude.Actions.{
  Action, ◌>>=◌, pure, gets, present, continue-eq-done, pure-eq-done, present-eq-done,
}
use judge_it.Prelude.Maps.{has}
use judge_it.Prelude.Results.{done}
use judge_it.Prelude.Text.{Text, text}
use judge_it.Submissions.Solved.{
  Problem, Stored, SolvedProblemResult, get_solved_problems, solved_counted,
}
use judge_it.Submissions.Service as Service
use judge_it.Users.Prisma.{Prisma}
use judge_it.Users.Repository as Repository
use judge_it.Users.Service.{find_by_id}
use judge_it.Users.Types.{Error, failure}

-- src/types/user-profile.type.ts.
pub record UserProfile : Type 0 where
  pub username : Text
  pub email : Text
  pub solved_problems_count : ℕ
  pub submissions_count : ℕ
  pub recent_ac_problems : List SolvedProblemResult

abbrev pub least : ℕ → ℕ → ℕ
least a b = if ltb a b then a else b

length-take-least : {A : Type 0} (n : ℕ) (xs : List A) → length (take n xs) ≡ least n (length xs)
length-take-least zero [] = ground arith
length-take-least zero (x ∷ xs) = ground arith
length-take-least (suc n) [] = ground arith
length-take-least (suc n) (x ∷ xs) = ground (arith, length-take-least n xs)

module _ {S : Type 0} (db : Prisma S) (now : S → ℕ) (get_id : ℕ → S → Text)
    (submissions_count : ℕ → S → ℕ) (problems : S → List Problem) (rows : S → List Stored) where
  -- Reading `user!.username` of a missing user throws.
  unfoldable pub get_profile : ℕ → Action S Error UserProfile
  get_profile id = do
    found ← find_by_id db now get_id id
    count ← gets (submissions_count id)
    solved ← gets (λ s. Service.get_solved_problems id (problems s) (rows s))
    u ← present found (failure (text "Cannot read properties of null (reading 'username')"))
    pure (record {
      username = u.username;
      email = u.email;
      solved_problems_count = length solved;
      submissions_count = count;
      recent_ac_problems = take 10 solved;
    })

  -- Where no two problems have one id and the problem of every submission is there, the profile of
  -- a user counts as solved problems what `getsolvedProblemsCount` says, lists as many recent ones,
  -- but ten at most, and has the count of the user's submissions; it changes nothing.
  pub profile_agrees :
      (id : ℕ) (s t : S) (profile : UserProfile)
      → get_profile id s ≡ (done profile, t)
      → ((x : ℕ) → count x (map (λ p. p.id) (problems s)) ≤ 1)
      → All (λ r. has r.0.problem_id (map (λ p. p.id) (problems s)) ≡ true) (rows s)
      → (profile.solved_problems_count ≡ Service.get_solved_problems_count id (rows s))
        × (length profile.recent_ac_problems
            ≡ least 10 (Service.get_solved_problems_count id (rows s)))
        × (profile.submissions_count ≡ submissions_count id s)
        × (s ≡ t)
  unfolding get_profile Repository.find_by_id Service.get_solved_problems
      Service.get_solved_problems_count
  profile_agrees id s t profile h unique known =
      let (u, s1, there, h1) = continue-eq-done (present (db.user_find_by_id id s) _ s) _ h in
      let (found, same) = present-eq-done (db.user_find_by_id id s) _ there in
      let (it, last) = pure-eq-done h1 in
      let counted = solved_counted id (problems s) (rows s) unique known in
      (
        ap (λ p. p.solved_problems_count) (sym it) ∙ sym counted,
        ap (λ p. length p.recent_ac_problems) (sym it)
            ∙ length-take-least 10 (get_solved_problems id (problems s) (rows s))
            ∙ ap (least 10) (sym counted),
        ap (λ p. p.submissions_count) (sym it),
        same ∙ last,
      )

-- The requests, with the number that `parseInt` reads from the user's id.
module _ {S : Type 0} (db : Prisma S) (now : S → ℕ) (get_id : ℕ → S → Text)
    (submissions_count : ℕ → S → ℕ) (problems : S → List Problem) (rows : S → List Stored) where
  abbrev pub profile : ℕ → Action S Error UserProfile
  profile user_id = get_profile db now get_id submissions_count problems rows user_id

abbrev pub solved_problems : ℕ → List Problem → List Stored → List SolvedProblemResult
solved_problems user_id problems rows = Service.get_solved_problems user_id problems rows
