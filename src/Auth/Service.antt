-- ===== src/Auth/Service.antt =====
-- src/auth/auth.service.ts: the operations on users, sessions and reset tokens. `setCookies` is
-- left out. Calls that the program runs at once (`Promise.all`) are signatures, which only read the state.
use judge_it.Prelude.{
  ℕ, Bool, true, not, ◌||◌, if◌then◌else◌, ltb, List, Option, none, some, ltb, length,
}
use judge_it.Prelude.Actions.{Action, ◌>>=◌, ◌>>◌, pure, throw, gets, asks, lift, check, present}
use judge_it.Prelude.Results.{Result, done, thrown}
use judge_it.Prelude.Text.{Text, text, is_nil}
use judge_it.Auth.Crypto.{Crypto, access_token_secret, refresh_token_secret, Payload}
use judge_it.Auth.Roles.{Role}
use judge_it.Users.Prisma.{Prisma}
use judge_it.Users.Repository as Repository
use judge_it.Users.Repository.{GoogleProfile, is_some}
use judge_it.Users.Service as Service
use judge_it.Users.Service.{AuthDto}
use judge_it.Users.Types.{User, ResetToken, Error, bad_request, unauthorized, forbidden, not_found}

-- src/types/tokens.types.ts, src/dto/change-password.dto.ts and src/dto/reset-password.dto.ts.
pub record Tokens : Type 0 where
  pub access_token : Text
  pub refresh_token : Text

pub record ChangePasswordDto : Type 0 where
  pub old_pass : Text
  pub new_pass : Text

pub record ResetPasswordDto : Type 0 where
  pub token : Text
  pub new_password : Text

-- A text that a condition takes for true: there, and not empty.
abbrev pub truthy : Option Text → Option Text
truthy none = none
truthy (some t) = if is_nil t then none else some t

abbrev pub access_denied : Error
access_denied = forbidden (text "Access denied")

abbrev pub invalid_credentials : Error
invalid_credentials = unauthorized (text "Invalid credentials")

-- `Promise.all` of the two signatures.
abbrev pub both : Result Error Text → Result Error Text → Result Error Tokens
both (done at) (done rt) = done (record { access_token = at; refresh_token = rt })
both (done at) (thrown e) = thrown e
both (thrown e) r = thrown e

module _ {S : Type 0} (db : Prisma S) (env : Crypto S) where
  unfoldable pub update_rt_hash : ℕ → Text → Action S Error User
  update_rt_hash user_id rt = do
    hashed_rt ← gets (env.hash rt)
    Service.update_rt_hash db env.now env.get_id user_id hashed_rt

  unfoldable pub get_tokens : ℕ → Text → Option (List Role) → Action S Error Tokens
  get_tokens user_id email roles = asks λ s.
      (let payload : Payload = record { sub = user_id; email = email; roles = roles } in
        both (env.sign payload access_token_secret s) (env.sign payload refresh_token_secret s))

  -- The last lines of `register`, `login` and `refreshTokens`.
  unfoldable pub open_session : User → Action S Error Tokens
  open_session u = do
    tokens ← get_tokens u.id u.email (some u.role)
    update_rt_hash u.id tokens.refresh_token
    pure tokens

  unfoldable pub register : AuthDto → Action S Error Tokens
  register dto = do
    hashed_password ← gets (env.hash dto.password)
    u ← Service.create_user db env.now env.get_id (record dto { password = hashed_password })
    open_session u

  -- `if (!user.hash && hasOAuthAccount)`.
  unfoldable pub refuse_oauth : User → Bool → Action S Error (Unit {0})
  refuse_oauth u has_oauth_account =
      check (is_some (truthy u.hash) || not has_oauth_account)
        (forbidden (text "This account uses OAuth login. Please sign in with Google."))

  -- `findUser` throws for an unknown email, so the branch for a missing user is never met.
  unfoldable pub login : AuthDto → Action S Error Tokens
  login dto = do
    u ← Service.find_user db env.now env.get_id dto
    has_oauth_account ← Service.has_account db env.now env.get_id dto.email
    refuse_oauth u has_oauth_account
    is_valid_password ← lift (env.verify u.hash dto.password)
    check is_valid_password invalid_credentials
    open_session u

  unfoldable pub logout : ℕ → Action S Error (Unit {0})
  logout user_id = Service.delete_rt db env.now env.get_id user_id

  -- A user with a refresh token, or an exception.
  unfoldable pub session_hash : Option User → Action S Error (User × Text)
  session_hash none = throw access_denied
  session_hash (some u) = do
    hashed_rt ← present (truthy u.hashed_rt) access_denied
    pure (u, hashed_rt)

  unfoldable pub refresh_tokens : ℕ → Text → Action S Error Tokens
  refresh_tokens user_id rt = do
    found ← Service.find_by_id db env.now env.get_id user_id
    (u, hashed_rt) ← session_hash found
    rt_matches ← lift (env.verify (some hashed_rt) rt)
    check rt_matches access_denied
    open_session u

  unfoldable pub change_password : ℕ → ChangePasswordDto → Action S Error (Unit {0})
  change_password id dto = do
    found ← Service.find_by_id db env.now env.get_id id
    u ← present found (not_found (text "User not found"))
    has_oauth_account ← Service.has_account db env.now env.get_id u.email
    check (not has_oauth_account) (bad_request (text "OAuth accounts cannot change password"))
    hash ← present (truthy u.hash) (bad_request (text "User has no password set"))
    is_valid_pass ← lift (env.verify (some hash) dto.old_pass)
    check is_valid_pass (bad_request (text "Incorrect old password"))
    new_pass_hash ← gets (env.hash dto.new_pass)
    updated ← Service.change_pass db env.now env.get_id u.id new_pass_hash
    pure tt

  -- A token that is unused and not expired.
  unfoldable pub validate_reset_token : Text → Action S Error ResetToken
  validate_reset_token token = do
    found ← Repository.get_password_reset_token db env.now env.get_id (env.sha256 token)
    row ← present found (forbidden (text "Invalid or expired token"))
    check (not row.used) (forbidden (text "Token has already been used"))
    time ← gets env.now
    check (not (ltb row.expires_at time)) (forbidden (text "Token has expired"))
    pure row

  unfoldable pub reset_password : ResetPasswordDto → Action S Error (Bool × Text)
  reset_password dto = do
    found ← validate_reset_token dto.token
    check (not (ltb (length dto.new_password) 8))
        (bad_request (text "Password must be at least 8 characters"))
    hashed_password ← gets (env.hash dto.new_password)
    updated ← Service.change_pass db env.now env.get_id found.user_id hashed_password
    Repository.mark_token_used db env.now env.get_id found.id
    pure (true, text "Password reset successfully")

  unfoldable pub reset_token : Text → Action S Error Text
  reset_token token = do found ← validate_reset_token token; pure token
