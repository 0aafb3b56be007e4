-- ===== src/Tests/Logins.antt =====
-- The reset mail and the login by the provider at concrete inputs, over the database of Tests.Auth.
use judge_it.Prelude.{◌≡◌, refl, sym, ap, none, [], ◌∷◌, some, false}
use judge_it.Prelude.Results.{done, thrown}
use judge_it.Prelude.Text.{Text, text}
use judge_it.Auth.Controller.{
  Answer, answer_with, get_current_user, google_auth_callback, google_callback_for,
}
use judge_it.Auth.Crypto.{Payload, access_token_secret}
use judge_it.Auth.Guards.{JwtPayload, at_validate, roles_can_activate}
use judge_it.Auth.Admission.{jwt_of}
use judge_it.Auth.Logins.{google_admin_refused}
use judge_it.Auth.Mailed.{reset_mail, mailed_token_valid}
use judge_it.Auth.Oauth.{send_to, send_password_reset_email}
use judge_it.Auth.Registered.{register_then_login}
use judge_it.Auth.Roles.{user, admin}
use judge_it.Auth.Service.{
  validate_reset_token, get_tokens, update_rt_hash, open_session, register, login, Tokens,
}
use judge_it.Tests.Database.{Row, one, one-Laws, plain, plain-Sound, row}
use judge_it.Users.Repository as Repository
use judge_it.Users.Service.{AuthDto}
use judge_it.Users.Service as Service
use judge_it.Users.Types.{User, ResetToken, forbidden}

abbrev mailed : Row
mailed = record row {
  token = record {
    id = 4;
    user_id = 1;
    token_hash = text "token";
    expires_at = 900100;
    used = false;
  };
}

mails : send_password_reset_email one plain (text "a@b.c") row ≡ (done tt, mailed)
unfolding send_password_reset_email Service.find_by_email Repository.find_by_email send_to
    Repository.create_password_reset_token
mails = refl

mailed_token_valid_example :
    (host : Text) × (m : Row) × (found : ResetToken) × (plain.send_mail
        (reset_mail (text "a@b.c") row.u host (text "token"))
        m
      ≡ (done tt, mailed))
    × (validate_reset_token one plain (text "token") mailed ≡ (done found, mailed))
    × (found.user_id ≡ 1)
mailed_token_valid_example =
    mailed_token_valid one plain one-Laws (text "a@b.c") row.u row mailed mailed
      (λ hash mail s t h. ap (λ x. one.token_find hash x.1) (sym h)) mails refl refl refl

-- A user that is an admin.
abbrev chief : User
chief = record row.u { role = admin ∷ [] }

abbrev chiefs : Row
chiefs = record row { u = chief }

abbrev answer : Answer
answer = answer_with (record { access_token = text "new"; refresh_token = text "new" })

abbrev called_back_row : Row
called_back_row = record chiefs { u = record chief { hashed_rt = some (text "new") } }

called_back : google_callback_for one plain chief chiefs ≡ (done answer, called_back_row)
unfolding google_callback_for google_auth_callback get_current_user get_tokens update_rt_hash
    Repository.update_rt_hash
called_back = refl

google_admin_refused_example :
    (p : Payload) × (v : JwtPayload) × (plain.sign p access_token_secret chiefs ≡ done (text "new"))
    × (p.sub ≡ 1)
    × (p.roles ≡ none)
    × (at_validate (jwt_of p) ≡ done v)
    × (v.roles ≡ some (user ∷ []))
    × (roles_can_activate false (some (admin ∷ [])) (some v)
        ≡ thrown (forbidden (text "Insufficient permissions")))
google_admin_refused_example =
    google_admin_refused one plain chief chiefs called_back_row answer called_back refl refl

-- A new user in place of the one that is there.
abbrev newcomer : AuthDto
newcomer = record { email = text "n@b.c"; username = text "n"; password = text "password" }

abbrev registered_user : User
registered_user = record {
  id = 1;
  email = text "n@b.c";
  hash = some (text "password");
  hashed_rt = some (text "new");
  role = [];
  username = text "n";
}

abbrev registered_row : Row
registered_row = record row { u = registered_user }

abbrev given : Tokens
given = record { access_token = text "new"; refresh_token = text "new" }

registered : register one plain newcomer row ≡ (done given, registered_row)
unfolding register Service.create_user Repository.find_by_email Repository.create_user open_session
    get_tokens update_rt_hash Repository.update_rt_hash
registered = refl

register_then_login_example :
    (u : User) × (one.user_find_by_email (text "n@b.c") registered_row ≡ some u)
    × (u.hash ≡ some (text "password"))
    × (login one plain newcomer registered_row ≡ open_session one plain u registered_row)
register_then_login_example =
    register_then_login one plain one-Laws newcomer row registered_row given plain-Sound refl
      registered
