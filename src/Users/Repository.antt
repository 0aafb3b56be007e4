-- ===== src/Users/Repository.antt =====
-- src/users/users.repository.ts but `getProfile`, and
-- src/auth/password-reset.repository.ts.
use judge_it.Prelude.{
  ℕ, ◌+◌, ◌*◌, Bool, true, false, not, ◌&&◌, ◌==◌, [], ◌∷◌, ◌++◌, Option, none, some,
}
use judge_it.Prelude.Actions.{Action, gets}
use judge_it.Prelude.Results.{done}
use judge_it.Prelude.Text.{Text, text, is_nil}
use judge_it.Users.Prisma.{Prisma}
use judge_it.Users.Types.{User, set_hash, set_hashed_rt, NewAccount, Account, ResetToken, Error}

-- src/dto/google-profile.dto.ts, the fields that are used.
pub record GoogleProfile : Type 0 where
  pub id : Text
  pub email : Text
  pub first_name : Text
  pub email_verified : Bool

-- One hour, in milliseconds.
abbrev pub hour : ℕ
hour = 3600 * 1000

abbrev pub is_some {ℓ} : {A : Type ℓ} → Option A → Bool
is_some none = false
is_some (some a) = true

abbrev pub new_account : Text → GoogleProfile → Text → Text → ℕ → NewAccount
new_account provider profile access_token refresh_token time = record {
  provider = provider;
  provider_account_id = profile.id;
  tokens = record {
    access_token = access_token;
    refresh_token = refresh_token;
    expires_at = time + hour;
  };
  token_type = text "Bearer";
  scope = text "email profile";
}

module _ {S : Type 0} (db : Prisma S) (now : S → ℕ) (get_id : ℕ → S → Text) where
  unfoldable pub create_user : Text → Text → Text → Action S Error User
  create_user email username password =
      db.user_create (record { email = email; username = username; hash = some password }) []

  unfoldable pub find_by_email : Text → Action S Error (Option User)
  find_by_email email = gets (db.user_find_by_email email)

  unfoldable pub find_by_id : ℕ → Action S Error (Option User)
  find_by_id id = gets (db.user_find_by_id id)

  -- With the number that `parseInt` reads from the id.
  unfoldable pub delete_user : ℕ → Action S Error User
  delete_user id = db.user_delete id

  unfoldable pub update_rt_hash : ℕ → Text → Action S Error User
  update_rt_hash user_id rt = db.user_update user_id (set_hashed_rt (some rt))

  unfoldable pub delete_rt : ℕ → Action S Error (Unit {0})
  delete_rt user_id s = (
    done tt,
    db.user_update_many (λ u. u.id == user_id && is_some u.hashed_rt) (set_hashed_rt none) s,
  )

  unfoldable pub find_account_by_provider : Text → Text → Action S Error (Option (Account × User))
  find_account_by_provider provider account_id = gets (db.account_find provider account_id)

  unfoldable pub update_oauth_account : Account → Text → Text → Action S Error Account
  update_oauth_account account access_token refresh_token s =
      db.account_update account.id
        (record {
          access_token = access_token;
          refresh_token = refresh_token;
          expires_at = now s + hour;
        })
        s

  unfoldable pub link_oauth_user :
      User → Text → GoogleProfile → Text → Text → Action S Error Account
  link_oauth_user u provider profile access_token refresh_token s =
      db.account_create u.id (new_account provider profile access_token refresh_token (now s)) s

  unfoldable pub create_oauth_user : Text → GoogleProfile → Text → Text → Action S Error User
  create_oauth_user provider profile access_token refresh_token s =
      db.user_create
        (record { email = profile.email; username = profile.first_name ++ get_id 4 s; hash = none })
        (new_account provider profile access_token refresh_token (now s) ∷ []) s

  has_accounts : S → Option User → Bool
  has_accounts s none = false
  has_accounts s (some u) = not (is_nil (db.accounts_of u.id s))

  unfoldable pub has_account : Text → Action S Error Bool
  unfolding has_accounts
  has_account email = gets (λ s. has_accounts s (db.user_find_by_email email s))

  unfoldable pub change_password : ℕ → Text → Action S Error User
  change_password user_id new_pass = db.user_update user_id (set_hash new_pass)

  unfoldable pub create_password_reset_token : ℕ → Text → ℕ → Action S Error (Unit {0})
  create_password_reset_token user_id hashed_token expires_at =
      db.token_create user_id hashed_token expires_at

  unfoldable pub get_password_reset_token : Text → Action S Error (Option ResetToken)
  get_password_reset_token token = gets (db.token_find token)

  unfoldable pub mark_token_used : ℕ → Action S Error (Unit {0})
  mark_token_used id = db.token_mark_used id
