-- ===== src/Auth/Controller.antt =====
-- src/auth/auth.controller.ts, and `setCookies` of src/auth/auth.service.ts. A request is what the
-- framework has read from it; the answer of a handler that opens a session is its cookies and its
-- body. `googleLogin` has an empty body.
use judge_it.Prelude.{ℕ, ◌*◌, Bool, true, false, List, [], ◌∷◌, Option, none, some, if◌then◌else◌}
use judge_it.Prelude.Actions.{Action, ◌>>=◌, pure, present}
use judge_it.Prelude.Eq.{text_beq}
use judge_it.Prelude.Text.{Text, text}
use judge_it.Auth.Crypto.{Crypto}
use judge_it.Auth.Oauth.{send_password_reset_email}
use judge_it.Auth.Roles.{Role}
use judge_it.Auth.Service as Service
use judge_it.Auth.Service.{Tokens, ChangePasswordDto, ResetPasswordDto, truthy}
use judge_it.Users.Prisma.{Prisma}
use judge_it.Users.Service.{AuthDto}
use judge_it.Users.Types.{User, Error, bad_request}

-- `request.user`, the properties that src/common/decorators/get-current-user-id.decorator.ts reads.
pub record RequestUser : Type 0 where
  pub sub : Option Text
  pub id : Option Text
  pub user_id : Option Text

-- `??` on two values that can be missing.
abbrev pub or_else : Option Text → Option Text → Option Text
or_else none b = b
or_else (some a) b = some a

unfoldable pub get_current_user_id : Option RequestUser → Option Text
get_current_user_id none = none
get_current_user_id (some u) = or_else (or_else u.sub u.id) u.user_id

pub record Cookie : Type 0 where
  pub name : Text
  pub value : Text
  pub http_only : Bool
  pub secure : Bool
  pub same_site : Text
  pub max_age : ℕ

pub record Answer : Type 0 where
  pub cookies : List Cookie
  pub body : Tokens

abbrev pub session_cookie : Text → Text → ℕ → Cookie
session_cookie name value max_age = record {
  name = name;
  value = value;
  http_only = true;
  secure = false;
  same_site = text "lax";
  max_age = max_age;
}

unfoldable pub set_cookies : Tokens → List Cookie
set_cookies tokens =
    session_cookie (text "Authentication") tokens.access_token (15 * 60 * 1000)
    ∷ session_cookie (text "Refresh") tokens.refresh_token (7 * 24 * 60 * 60 * 1000)
    ∷ []

-- `setCookies` and `res.json`, the last two lines of the handlers that open a session.
abbrev pub answer_with : Tokens → Answer
answer_with tokens = record { cookies = set_cookies tokens; body = tokens }

-- What a property of a row can be.
pub data Property : Type 0 where
  id_property : ℕ → Property
  text_property : Option Text → Property
  roles_property : List Role → Property

-- `user?.[data]` of src/common/decorators/get-current-user.decorator.ts, where the user of the request
-- is a row: its properties have the names of the columns.
unfoldable pub get_current_user : Text → User → Option Property
get_current_user key u =
    if text_beq key (text "id")
    then some (id_property u.id)
    else (if text_beq key (text "email")
        then some (text_property (some u.email))
        else (if text_beq key (text "username")
            then some (text_property (some u.username))
            else (if text_beq key (text "hash")
                then some (text_property u.hash)
                else (if text_beq key (text "hashedRt")
                    then some (text_property u.hashed_rt)
                    else (if text_beq key (text "role")
                        then some (roles_property u.role)
                        else none)))))

abbrev pub roles_in : Option Property → Option (List Role)
roles_in none = none
roles_in (some (roles_property roles)) = some roles
roles_in (some other) = none

module _ {S : Type 0} (db : Prisma S) (env : Crypto S) where
  unfoldable pub register : AuthDto → Action S Error Answer
  register dto = do tokens ← Service.register db env dto; pure (answer_with tokens)

  unfoldable pub login : AuthDto → Action S Error Answer
  login dto = do tokens ← Service.login db env dto; pure (answer_with tokens)

  unfoldable pub logout : ℕ → Action S Error (Unit {0})
  logout user_id = Service.logout db env user_id

  unfoldable pub refresh_tokens : ℕ → Text → Action S Error Answer
  refresh_tokens sub refresh_token = do
    tokens ← Service.refresh_tokens db env sub refresh_token
    pure (answer_with tokens)

  unfoldable pub google_auth_callback : ℕ → Text → Option (List Role) → Action S Error Answer
  google_auth_callback user_id email roles = do
    tokens ← Service.get_tokens db env user_id email roles
    updated ← Service.update_rt_hash db env user_id tokens.refresh_token
    pure (answer_with tokens)

  -- The callback with what the decorators read from the row that the provider's login gave.
  unfoldable pub google_callback_for : User → Action S Error Answer
  google_callback_for u =
      google_auth_callback u.id u.email (roles_in (get_current_user (text "roles") u))

  unfoldable pub validate_reset_token : Text → Action S Error Text
  validate_reset_token token = Service.reset_token db env token

  unfoldable pub reset_password : ResetPasswordDto → Action S Error (Bool × Text)
  reset_password body = Service.reset_password db env body

  -- `body?.email`, which may be missing.
  unfoldable pub forgot_password : Option Text → Action S Error (Unit {0})
  forgot_password found = do
    email ← present (truthy found) (bad_request (text "no email provided"))
    send_password_reset_email db env email

  unfoldable pub change_password : ℕ → ChangePasswordDto → Action S Error (Unit {0})
  change_password id body = Service.change_password db env id body
