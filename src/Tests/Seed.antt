-- ===== src/Tests/Seed.antt =====
-- The seed at a concrete database: the emails of the users and the slugs of the problems, each found
-- at its place in its list.
use judge_it.Prelude.{
  ℕ, ◌≡◌, refl, sym, ap, ◌∙◌, List, [], ◌∷◌, Option, none, some, All, length, if◌then◌else◌, arith,
  Option-cases, inl, inr,
}
use judge_it.Prelude.Actions.{pure-eq-done}
use judge_it.Prelude.Eq.{text_beq, text_beq_iff}
use judge_it.Prelude.Results.{done}
use judge_it.Prelude.Text.{Text, text}
use judge_it.Seed.{UserSet, Client, Laws, IsThere, problems, upsert_all, seed, seed_idempotent}

-- Each key with its id.
abbrev Table : Type 0
Table = List (Text × ℕ)

pub record Tables : Type 0 where
  pub users : Table
  pub slugs : Table
  pub updates : List (ℕ × List UserSet)

abbrev id_in : Text → Table → Option ℕ
id_in key [] = none
id_in key ((k, id) ∷ rows) = if text_beq k key then some id else id_in key rows

-- A row that is there, or a new one.
abbrev upsert : Text → Table → Option ℕ → ℕ × Table
upsert key rows (some id) = (id, rows)
upsert key rows none = (length rows, (key, length rows) ∷ rows)

abbrev put : Text → Table → ℕ × Table
put key rows = upsert key rows (id_in key rows)

id_in-put : (key : Text) (rows : Table) → id_in key (put key rows).1 ≡ some (put key rows).0
id_in-put key rows = elim (Option-cases (id_in key rows)) [
  | inl e ↦ rw e (rw ((text_beq_iff key key).1 refl) refl)
  | inr (id, e) ↦ rw e e
]

id_in-kept :
    (key other : Text) (rows : Table) {id : ℕ}
    → id_in key rows ≡ some id
    → id_in key (put other rows).1 ≡ some id
id_in-kept key other rows h = elim (Option-cases (id_in other rows)) [
  | inl e ↦ rw e (ground (arith, h, text_beq_iff other key))
  | inr (id, e) ↦ rw e h
]

-- What is set in a row is noted with its id.
abbrev note : ℕ → List UserSet → Tables → Tables
note id [] s = s
note id (x ∷ xs) s = record s { updates = (id, x ∷ xs) ∷ s.updates }

abbrev note_if : Option ℕ → List UserSet → Tables → Tables
note_if none sets s = s
note_if (some id) sets s = note id sets s

abbrev client : Client Tables
client = record {
  user_upsert = λ email sets u s.
      (let (id, rows) = put email s.users in
        (done id, note_if (id_in email s.users) sets (record s { users = rows })));
  problem_upsert = λ slug sets p by s.
      (let (id, rows) = put slug s.slugs in (done id, record s { slugs = rows }));
  user_update = note;
  problem_update = λ id sets s. s;
  user_id = λ email s. id_in email s.users;
  problem_id = λ slug s. id_in slug s.slugs;
  hash = λ password s. password;
}

note_if-nil : (o : Option ℕ) (s : Tables) → note_if o [] s ≡ s
note_if-nil none s = refl
note_if-nil (some id) s = refl

client-Laws : Laws client
client-Laws = record {
  user_upsert-found = λ email sets u id s h. rw h refl;
  user_update-nil = λ id s. refl;
  user_id-user_upsert = λ email u id s t own h.
      (let (it, same) = pure-eq-done h in
        ap (λ x. id_in email x.users)
          (sym same
            ∙ note_if-nil (id_in email s.users) (record s { users = (put email s.users).1 }))
        ∙ id_in-put email s.users
        ∙ ap some it);
  problem_upsert-found = λ slug sets p by id s h. rw h refl;
  problem_update-nil = λ id s. refl;
  problem_id-problem_upsert = λ slug p by id s t own h.
      (let (it, same) = pure-eq-done h in
        ap (λ x. id_in slug x.slugs) (sym same) ∙ id_in-put slug s.slugs ∙ ap some it);
  problem_id-kept = λ slug other sets p by id found s t h there.
      ap (λ x. id_in other x.slugs) (sym (pure-eq-done h).1) ∙ id_in-kept other slug s.slugs there;
  user_id-kept =
      λ email slug sets p by id s t h. ap (λ x. id_in email x.users) (sym (pure-eq-done h).1);
}

abbrev empty : Tables
empty = record { users = []; slugs = []; updates = [] }

abbrev seeded : Tables
seeded = record {
  users = (text "admin@judgeit.io", 0) ∷ [];
  slugs = (text "longest-substring", 2) ∷ (text "merge-intervals", 1) ∷ (text "two-sum", 0) ∷ [];
  updates = [];
}

seeds : seed client none empty ≡ (done 3, seeded)
unfolding seed upsert_all
seeds = refl

seed_idempotent_example :
    (seed client (some (text "secret")) seeded ≡ (done 3, seeded))
    × ((id : ℕ) × (client.user_id (text "admin@judgeit.io") seeded ≡ some id))
    × All (IsThere client seeded) problems
seed_idempotent_example =
    seed_idempotent client client-Laws none (some (text "secret")) 3 empty seeded seeds
