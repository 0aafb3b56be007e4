-- ===== src/Seed.antt =====
-- prisma/seed.ts. The calls of the database client and the hash of the password are parameters; an
-- `upsert` updates the row of its key, or creates one.
use judge_it.Prelude.{ℕ, ◌≡◌, refl, sym, ap, ◌∙◌, List, [], ◌∷◌, Option, none, some, All, length}
use judge_it.Prelude.Actions.{Action, ◌>>=◌, ◌>>◌, pure, gets, continue-eq-done, pure-eq-done}
use judge_it.Prelude.Results.{done}
use judge_it.Prelude.Text.{Text, text}
use judge_it.Auth.Roles.{Role, admin}
use judge_it.Auth.Service.{truthy}
use judge_it.Users.Types.{Error}

-- The `create` of a user and of a problem.
pub record SeedUser : Type 0 where
  pub email : Text
  pub username : Text
  pub hash : Text
  pub role : List Role

pub record SeedProblem : Type 0 where
  pub slug : Text
  pub title : Text
  pub description : Text
  pub difficulty : Text
  pub time_limit : ℕ
  pub memory_limit : ℕ

-- The fields that an `update` sets.
pub data UserSet : Type 0 where
  set_user_email set_username set_hash : Text → UserSet
  set_role : List Role → UserSet

pub data ProblemSet : Type 0 where
  set_title set_description set_difficulty : Text → ProblemSet
  set_time_limit set_memory_limit set_created_by : ℕ → ProblemSet

-- `user.upsert` and `problem.upsert` with their `where`, `update` and `create`, which give the id of a
-- row; what `update` does to the row of an id; and what is found by an email and by a slug.
pub record Client (S : Type 0) : Type 0 where
  pub user_upsert : Text → List UserSet → SeedUser → Action S Error ℕ
  pub problem_upsert : Text → List ProblemSet → SeedProblem → ℕ → Action S Error ℕ
  pub user_update : ℕ → List UserSet → S → S
  pub problem_update : ℕ → List ProblemSet → S → S
  pub user_id : Text → S → Option ℕ
  pub problem_id : Text → S → Option ℕ
  pub hash : Text → S → Text

-- What the documentation of the client says: `upsert` updates the row that its `where` finds, and
-- creates one otherwise; an update that sets no field changes nothing; and an upsert of a problem
-- leaves users and the slugs of the other problems as they are.
pub record Laws {S : Type 0} (db : Client S) : Type 0 where
  pub user_upsert-found :
      (email : Text) (sets : List UserSet) (u : SeedUser) (id : ℕ) (s : S)
      → db.user_id email s ≡ some id
      → db.user_upsert email sets u s ≡ (done id, db.user_update id sets s)
  pub user_update-nil : (id : ℕ) (s : S) → db.user_update id [] s ≡ s
  pub user_id-user_upsert :
      (email : Text) (u : SeedUser) (id : ℕ) (s t : S)
      → u.email ≡ email
      → db.user_upsert email [] u s ≡ (done id, t)
      → db.user_id email t ≡ some id
  pub problem_upsert-found :
      (slug : Text) (sets : List ProblemSet) (p : SeedProblem) (by id : ℕ) (s : S)
      → db.problem_id slug s ≡ some id
      → db.problem_upsert slug sets p by s ≡ (done id, db.problem_update id sets s)
  pub problem_update-nil : (id : ℕ) (s : S) → db.problem_update id [] s ≡ s
  pub problem_id-problem_upsert :
      (slug : Text) (p : SeedProblem) (by id : ℕ) (s t : S)
      → p.slug ≡ slug
      → db.problem_upsert slug [] p by s ≡ (done id, t)
      → db.problem_id slug t ≡ some id
  pub problem_id-kept :
      (slug other : Text) (sets : List ProblemSet) (p : SeedProblem) (by id there : ℕ) (s t : S)
      → db.problem_upsert slug sets p by s ≡ (done id, t)
      → db.problem_id other s ≡ some there
      → db.problem_id other t ≡ some there
  pub user_id-kept :
      (email slug : Text) (sets : List ProblemSet) (p : SeedProblem) (by id : ℕ) (s t : S)
      → db.problem_upsert slug sets p by s ≡ (done id, t)
      → db.user_id email t ≡ db.user_id email s

abbrev pub or_admin123 : Option Text → Text
or_admin123 none = text "admin123"
or_admin123 (some password) = password

-- The admin, with the hash of the password.
abbrev pub admin_user : Text → SeedUser
admin_user hashed = record {
  email = text "admin@judgeit.io";
  username = text "admin";
  hash = hashed;
  role = admin ∷ [];
}

abbrev pub problems : List SeedProblem
problems =
    record {
      slug = text "two-sum";
      title = text "Two Sum";
      description =
          text
            "Given an array of integers nums and an integer target, return indices of the two numbers such that they add up to target.";
      difficulty = text "easy";
      time_limit = 2;
      memory_limit = 256;
    }
    ∷ record {
      slug = text "merge-intervals";
      title = text "Merge Intervals";
      description =
          text
            "Given an array of intervals where intervals[i] = [starti, endi], merge all overlapping intervals.";
      difficulty = text "medium";
      time_limit = 2;
      memory_limit = 256;
    }
    ∷ record {
      slug = text "longest-substring";
      title = text "Longest Substring Without Repeating Characters";
      description =
          text
            "Given a string s, find the length of the longest substring without repeating characters.";
      difficulty = text "medium";
      time_limit = 2;
      memory_limit = 256;
    }
    ∷ []

module _ {S : Type 0} (db : Client S) where
  -- The loop over the problems.
  unfoldable pub upsert_all : List SeedProblem → ℕ → Action S Error (Unit {0})
  upsert_all [] admin_id = pure tt
  upsert_all (p ∷ ps) admin_id = do
    id ← db.problem_upsert p.slug [] p admin_id
    upsert_all ps admin_id

  -- `main`, with the password of the environment; it returns the count that it prints.
  unfoldable pub seed : Option Text → Action S Error ℕ
  seed admin_password = do
    admin_hash ← gets (db.hash (or_admin123 (truthy admin_password)))
    admin_id ← db.user_upsert (text "admin@judgeit.io") [] (admin_user admin_hash)
    upsert_all problems admin_id
    pure (length problems)

  -- The problem of a slug is there.
  abbrev pub IsThere : S → SeedProblem → Type 0
  IsThere s p = (id : ℕ) × (db.problem_id p.slug s ≡ some id)

module _ {S : Type 0} (db : Client S) (laws : Laws db) where
  upsert_all-kept :
      (ps : List SeedProblem) (by : ℕ) (s t : S) (x : Unit {0})
      → upsert_all db ps by s ≡ (done x, t)
      → ((p : SeedProblem) → IsThere db s p → IsThere db t p)
        × ((email : Text) → db.user_id email t ≡ db.user_id email s)
  unfolding upsert_all
  upsert_all-kept [] by s t x h =
      let same = (pure-eq-done h).1 in
      (
        λ p there. (there.0, ap (db.problem_id p.slug) (sym same) ∙ there.1),
        λ email. ap (db.user_id email) (sym same),
      )
  upsert_all-kept (q ∷ ps) by s t x h =
      let (id, m, put, rest) = continue-eq-done (db.problem_upsert q.slug [] q by s) _ h in
      let (kept, users) = upsert_all-kept ps by m t x rest in
      (
        λ p there.
            kept p (there.0, laws.problem_id-kept q.slug p.slug [] q by id there.0 s m put there.1),
        λ email. users email ∙ laws.user_id-kept email q.slug [] q by id s m put,
      )

  upsert_all-IsThere :
      (ps : List SeedProblem) (by : ℕ) (s t : S) (x : Unit {0})
      → upsert_all db ps by s ≡ (done x, t)
      → All (IsThere db t) ps
  unfolding upsert_all
  upsert_all-IsThere [] by s t x h = tt
  upsert_all-IsThere (p ∷ ps) by s t x h =
      let (id, m, put, rest) = continue-eq-done (db.problem_upsert p.slug [] p by s) _ h in
      (
        (upsert_all-kept ps by m t x rest).0 p
            (id, laws.problem_id-problem_upsert p.slug p by id s m refl put),
        upsert_all-IsThere ps by m t x rest,
      )

  upsert_all-idle :
      (ps : List SeedProblem) (by : ℕ) (s : S)
      → All (IsThere db s) ps
      → upsert_all db ps by s ≡ (done tt, s)
  unfolding upsert_all
  upsert_all-idle [] by s there = refl
  upsert_all-idle (p ∷ ps) by s (first, others) =
      rw
        (
          laws.problem_upsert-found p.slug [] p by first.0 s first.1,
          laws.problem_update-nil first.0 s,
        )
        (upsert_all-idle ps by s others)

  -- Seeding can be repeated: after a run that returned, another one, with whatever password, returns
  -- and changes nothing, and the admin and every problem of the seed are there.
  pub seed_idempotent :
      (password again : Option Text) (n : ℕ) (s t : S)
      → seed db password s ≡ (done n, t)
      → (seed db again t ≡ (done n, t))
        × ((id : ℕ) × (db.user_id (text "admin@judgeit.io") t ≡ some id))
        × All (IsThere db t) problems
  unfolding seed
  seed_idempotent password again n s t h =
      let first = admin_user (db.hash (or_admin123 (truthy password)) s) in
      let second = admin_user (db.hash (or_admin123 (truthy again)) t) in
      let (id, m, put, h1) =
        continue-eq-done (db.user_upsert (text "admin@judgeit.io") [] first s) _ h in
      let (x, m', looped, h2) = continue-eq-done (upsert_all db problems id m) _ h1 in
      let (count, same) = pure-eq-done h2 in
      let looped' = looped ∙ ap (λ y. (done x, y)) same in
      let found =
        (upsert_all-kept problems id m t x looped').1 (text "admin@judgeit.io")
        ∙ laws.user_id-user_upsert (text "admin@judgeit.io") first id s m refl put in
      let there = upsert_all-IsThere problems id m t x looped' in
      (
        rw
            (
              laws.user_upsert-found (text "admin@judgeit.io") [] second id t found,
              laws.user_update-nil id t,
              upsert_all-idle problems id t there,
            )
            (ap (λ c. (done c, t)) count),
        (id, found),
        there,
      )
