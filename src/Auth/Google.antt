-- ===== src/Auth/Google.antt =====
-- src/auth/strategies/google-strategy.service.ts: what is read from a profile of the provider, and
-- the login that follows. `done` is told of the user or of the error.
use judge_it.Prelude.{Bool, false, List, [], ◌∷◌, Option, none, some}
use judge_it.Prelude.Actions.{Action, ◌>>=◌, ◌>>◌, check, present}
use judge_it.Prelude.Text.{Text, text}
use judge_it.Auth.Crypto.{Crypto}
use judge_it.Auth.Oauth.{validate_oauth_login}
use judge_it.Auth.Service.{truthy}
use judge_it.Users.Prisma.{Prisma}
use judge_it.Users.Types.{User, Error, unauthorized}

-- `emails` of `Profile`: an address, and whether it is verified, which may be missing.
pub record Email : Type 0 where
  pub value : Text
  pub verified : Option Bool

-- The fields of `Profile` that reach the users, an `undefined` first name as a text.
pub record Profile : Type 0 where
  pub id : Text
  pub emails : List Email
  pub given_name : Text

abbrev pub first_email : List Email → Option Text
first_email [] = none
first_email (e ∷ es) = some e.value

abbrev pub or_false : Option Bool → Bool
or_false none = false
or_false (some b) = b

abbrev pub first_verified : List Email → Bool
first_verified [] = false
first_verified (e ∷ es) = or_false e.verified

module _ {S : Type 0} (db : Prisma S) (env : Crypto S) where
  unfoldable pub validate : Text → Text → Profile → Action S Error User
  validate access_token refresh_token profile = do
    email ←
        present (truthy (first_email profile.emails))
          (unauthorized (text "Email not provided by Google"))
    check (first_verified profile.emails) (unauthorized (text "Email not verified by Google"))
    validate_oauth_login db env
        (record {
          id = profile.id;
          email = email;
          first_name = profile.given_name;
          email_verified = first_verified profile.emails;
        })
        access_token refresh_token (text "google")
