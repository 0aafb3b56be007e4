-- ===== src/Users/Service.antt =====
-- src/users/users.service.ts, most of which passes calls on to the repository.
use judge_it.Prelude.{ℕ, not, Bool, Option}
use judge_it.Prelude.Actions.{Action, ◌>>=◌, ◌>>◌, check, present}
use judge_it.Prelude.Text.{Text, text, is_nil}
use judge_it.Users.Prisma.{Prisma}
use judge_it.Users.Repository as Repository
use judge_it.Users.Repository.{GoogleProfile, is_some}
use judge_it.Users.Types.{User, Account, Error, bad_request, conflict}

-- src/dto/auth.dto.ts.
pub record AuthDto : Type 0 where
  pub email : Text
  pub username : Text
  pub password : Text

module _ {S : Type 0} (db : Prisma S) (now : S → ℕ) (get_id : ℕ → S → Text) where
  unfoldable pub create_user : AuthDto → Action S Error User
  create_user dto = do
    existing_user ← Repository.find_by_email db now get_id dto.email
    check (not (is_some existing_user)) (conflict (text "User already exists"))
    Repository.create_user db now get_id dto.email dto.username dto.password

  unfoldable pub find_user : AuthDto → Action S Error User
  find_user dto = do
    found ← Repository.find_by_email db now get_id dto.email
    present found (bad_request (text "User is not found"))

  unfoldable pub find_by_email : Text → Action S Error (Option User)
  find_by_email email = do
    check (not (is_nil email)) (bad_request (text "Email doesn't exist"))
    Repository.find_by_email db now get_id email

  abbrev pub find_by_id : ℕ → Action S Error (Option User)
  find_by_id user_id = Repository.find_by_id db now get_id user_id

  abbrev pub update_rt_hash : ℕ → Text → Action S Error User
  update_rt_hash user_id rt = Repository.update_rt_hash db now get_id user_id rt

  abbrev pub delete_rt : ℕ → Action S Error (Unit {0})
  delete_rt user_id = Repository.delete_rt db now get_id user_id

  abbrev pub find_account_by_provider : Text → Text → Action S Error (Option (Account × User))
  find_account_by_provider provider account_id =
      Repository.find_account_by_provider db now get_id provider account_id

  abbrev pub update_oauth_account : Account → Text → Text → Action S Error Account
  update_oauth_account account access_token refresh_token =
      Repository.update_oauth_account db now get_id account access_token refresh_token

  abbrev pub link_oauth_user : User → Text → GoogleProfile → Text → Text → Action S Error Account
  link_oauth_user u provider profile access_token refresh_token =
      Repository.link_oauth_user db now get_id u provider profile access_token refresh_token

  abbrev pub create_oauth_user : Text → GoogleProfile → Text → Text → Action S Error User
  create_oauth_user provider profile access_token refresh_token =
      Repository.create_oauth_user db now get_id provider profile access_token refresh_token

  abbrev pub has_account : Text → Action S Error Bool
  has_account email = Repository.has_account db now get_id email

  abbrev pub change_pass : ℕ → Text → Action S Error User
  change_pass id new_pass = Repository.change_password db now get_id id new_pass
