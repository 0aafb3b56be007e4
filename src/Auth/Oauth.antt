-- ===== src/Auth/Oauth.antt =====
-- src/auth/auth.service.ts: the login by an identity provider, and the mail with a reset link.
use judge_it.Prelude.{ℕ, ◌+◌, ◌*◌, not, ◌++◌, Option, none, some}
use judge_it.Prelude.Actions.{Action, ◌>>=◌, ◌>>◌, pure, gets, lift, check}
use judge_it.Prelude.Text.{Text, text, is_nil}
use judge_it.Auth.Crypto.{Crypto}
use judge_it.Users.Prisma.{Prisma}
use judge_it.Users.Repository as Repository
use judge_it.Users.Repository.{GoogleProfile}
use judge_it.Users.Service as Service
use judge_it.Users.Types.{User, Account, Error, unauthorized}

-- What `addMinutes(new Date(), 15)` adds.
abbrev pub quarter : ℕ
quarter = 15 * 60 * 1000

module _ {S : Type 0} (db : Prisma S) (env : Crypto S) where
  -- The part after the look-up of the account.
  unfoldable pub link_or_create :
      GoogleProfile → Text → Text → Text → Option User → Action S Error User
  link_or_create profile access_token refresh_token provider (some u) = do
    linked ←
        Service.link_oauth_user db env.now env.get_id u provider profile access_token refresh_token
    pure u
  link_or_create profile access_token refresh_token provider none =
      Service.create_oauth_user db env.now env.get_id provider profile access_token refresh_token

  unfoldable pub known_account :
      GoogleProfile → Text → Text → Text → Option (Account × User) → Action S Error User
  known_account profile access_token refresh_token provider (some (account, u)) = do
    updated ← Service.update_oauth_account db env.now env.get_id account access_token refresh_token
    pure u
  known_account profile access_token refresh_token provider none = do
    found ← Service.find_by_email db env.now env.get_id profile.email
    link_or_create profile access_token refresh_token provider found

  unfoldable pub validate_oauth_login : GoogleProfile → Text → Text → Text → Action S Error User
  validate_oauth_login profile access_token refresh_token provider = do
    check (not (is_nil profile.email)) (unauthorized (text "Email not provided by OAuth provider"))
    check profile.email_verified
        (unauthorized (text "Please verify your email with the OAuth provider first"))
    account ← Service.find_account_by_provider db env.now env.get_id provider profile.id
    known_account profile access_token refresh_token provider account

  unfoldable pub send_to : Text → Option User → Action S Error (Unit {0})
  send_to email none = pure tt
  send_to email (some u) = do
    token ← gets env.random_bytes
    expires_at ← gets (λ s. env.now s + quarter)
    Repository.create_password_reset_token db env.now env.get_id u.id (env.sha256 token) expires_at
    host ← lift env.host
    env.send_mail (record {
      to = email;
      subject = text "Password Reset";
      template_name = text "reset_password";
      username = u.username;
      reset_link = text "http://" ++ (host ++ (text "/auth/reset-password/verify?token=" ++ token));
    })

  unfoldable pub send_password_reset_email : Text → Action S Error (Unit {0})
  send_password_reset_email email = do
    found ← Service.find_by_email db env.now env.get_id email
    send_to email found
