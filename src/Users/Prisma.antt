-- ===== src/Users/Prisma.antt =====
-- The calls of the database client that src/users and src/auth make, over a state `S` that is not
-- described, and what they rely on. Reads succeed; a write may throw, for a unique column or a lost
-- connection.
use judge_it.Prelude.{ℕ, ◌≡◌, Bool, true, false, List, Option, none, some, if◌then◌else◌, ◌==◌}
use judge_it.Prelude.Actions.{Action}
use judge_it.Prelude.Results.{done}
use judge_it.Prelude.Text.{Text}
use judge_it.Users.Types.{
  User, NewUser, Patch, apply, AccountTokens, NewAccount, Account, ResetToken, Error,
}

pub record Prisma (S : Type 0) : Type 0 where
  -- `user.create`, with the accounts that are created with it.
  pub user_create : NewUser → List NewAccount → Action S Error User
  pub user_find_by_email : Text → S → Option User
  pub user_find_by_id : ℕ → S → Option User
  pub user_delete : ℕ → Action S Error User
  pub user_update : ℕ → Patch → Action S Error User
  -- `user.updateMany` with its `where`.
  pub user_update_many : (User → Bool) → Patch → S → S
  -- The accounts that `include: { accounts: true }` adds to a user.
  pub accounts_of : ℕ → S → List Account
  -- `account.findUnique` with `include: { user: true }`.
  pub account_find : Text → Text → S → Option (Account × User)
  pub account_create : ℕ → NewAccount → Action S Error Account
  pub account_update : ℕ → AccountTokens → Action S Error Account
  -- `passwordResetToken.create` of a user's id, a hash and an expiry.
  pub token_create : ℕ → Text → ℕ → Action S Error (Unit {0})
  -- `findFirst` by the hash, the newest first.
  pub token_find : Text → S → Option ResetToken
  -- `update` to `used: true`.
  pub token_mark_used : ℕ → Action S Error (Unit {0})

abbrev pub patch_if : (User → Bool) → Patch → Option User → Option User
patch_if test p none = none
patch_if test p (some u) = some (if test u then apply p u else u)

abbrev pub mark_if : ℕ → Option ResetToken → Option ResetToken
mark_if id none = none
mark_if id (some t) = some (if t.id == id then record t { used = true } else t)

-- A user is found by the keys that it has, a write that returns is seen by the reads after it, and
-- one that changes another column or table leaves what they find.
pub record Laws {S : Type 0} (db : Prisma S) : Type 0 where
  pub find_by_email-id :
      (email : Text) (s : S) (u : User)
      → db.user_find_by_email email s ≡ some u
      → db.user_find_by_id u.id s ≡ some u
  pub find_by_email-update :
      (email : Text) (id : ℕ) (p : Patch) (s t : S) (v : User)
      → db.user_update id p s ≡ (done v, t)
      → db.user_find_by_email email t ≡ patch_if (λ u. u.id == id) p (db.user_find_by_email email s)
  pub find_by_id-update :
      (i id : ℕ) (p : Patch) (s t : S) (v : User)
      → db.user_update id p s ≡ (done v, t)
      → db.user_find_by_id i t ≡ patch_if (λ u. u.id == id) p (db.user_find_by_id i s)
  pub find_by_id-update_many :
      (i : ℕ) (test : User → Bool) (p : Patch) (s : S)
      → db.user_find_by_id i (db.user_update_many test p s)
        ≡ patch_if test p (db.user_find_by_id i s)
  pub find_by_id_lem :
      (id : ℕ) (s : S) (u : User) → db.user_find_by_id id s ≡ some u → (u.id == id) ≡ true
  pub token_find-update :
      (hash : Text) (id : ℕ) (p : Patch) (s t : S) (v : User)
      → db.user_update id p s ≡ (done v, t)
      → db.token_find hash t ≡ db.token_find hash s
  pub token_find-mark_used :
      (hash : Text) (id : ℕ) (s t : S) (v : Unit {0})
      → db.token_mark_used id s ≡ (done v, t)
      → db.token_find hash t ≡ mark_if id (db.token_find hash s)
  pub find_by_id-mark_used :
      (i id : ℕ) (s t : S) (v : Unit {0})
      → db.token_mark_used id s ≡ (done v, t)
      → db.user_find_by_id i t ≡ db.user_find_by_id i s
  pub find_by_email-mark_used :
      (email : Text) (id : ℕ) (s t : S) (v : Unit {0})
      → db.token_mark_used id s ≡ (done v, t)
      → db.user_find_by_email email t ≡ db.user_find_by_email email s
  pub token_find-create :
      (hash : Text) (user_id expires_at : ℕ) (s t : S) (v : Unit {0})
      → db.token_create user_id hash expires_at s ≡ (done v, t)
      → (row : ResetToken) × (db.token_find hash t ≡ some row)
        × (row.user_id ≡ user_id)
        × (row.expires_at ≡ expires_at)
        × (row.used ≡ false)
  pub find_by_email-create :
      (new : NewUser) (accounts : List NewAccount) (s t : S) (u : User)
      → db.user_create new accounts s ≡ (done u, t)
      → (db.user_find_by_email new.email t ≡ some u) × (u.hash ≡ new.hash)
