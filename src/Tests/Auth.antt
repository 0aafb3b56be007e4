-- ===== src/Tests/Auth.antt =====
-- The theorems on src/auth at concrete inputs, over a database of one user, one account and one
-- reset token, and with a hash that is the text itself.
use judge_it.Prelude.{◌∷◌, ◌≡◌, refl, [], true, false, some}
use judge_it.Prelude.Results.{done, thrown}
use judge_it.Prelude.Text.{Text, text, is_nil}
use judge_it.Auth.Access.{Returned, validate_oauth_login_sound}
use judge_it.Auth.Oauth.{known_account, link_or_create, validate_oauth_login}
use judge_it.Auth.Recovered.{reset_then_login}
use judge_it.Auth.Resets.{reset_token_once}
use judge_it.Auth.Service.{
  Tokens, ChangePasswordDto, change_password, ResetPasswordDto, access_denied, update_rt_hash,
  get_tokens, open_session, login, logout, session_hash, refresh_tokens, validate_reset_token,
  reset_password,
}
use judge_it.Auth.Guards.{id_number, JwtPayload}
use judge_it.Auth.Roles.{moderator}
use judge_it.Auth.Sessions.{logout_revokes, refresh_rotates}
use judge_it.Users.Repository.{GoogleProfile, is_some}
use judge_it.Users.Repository as Repository
use judge_it.Users.Service.{AuthDto}
use judge_it.Users.Service as Service
use judge_it.Users.Types.{forbidden}
use judge_it.Tests.Database.{Row, one, one-Laws, plain, plain-Sound, row}

abbrev tokens : Tokens
tokens = record { access_token = text "new"; refresh_token = text "new" }

abbrev refreshed : Row
refreshed = record row { u = record row.u { hashed_rt = some (text "new") } }

logout_revokes_example :
    refresh_tokens one plain 1 (text "old") (logout one plain 1 row).1
    ≡ (thrown access_denied, (logout one plain 1 row).1)
logout_revokes_example =
    logout_revokes one plain one-Laws 1 (text "old") row (logout one plain 1 row).1 refl

refreshes : refresh_tokens one plain 1 (text "old") row ≡ (done tokens, refreshed)
unfolding refresh_tokens Repository.find_by_id session_hash open_session get_tokens update_rt_hash
    Repository.update_rt_hash
refreshes = refl

refreshes_again : refresh_tokens one plain 1 (text "new") refreshed ≡ (done tokens, refreshed)
unfolding refresh_tokens Repository.find_by_id session_hash open_session get_tokens update_rt_hash
    Repository.update_rt_hash
refreshes_again = refl

refresh_rotates_example : text "new" ≡ tokens.refresh_token
refresh_rotates_example =
    refresh_rotates one plain one-Laws plain-Sound 1 (text "old") (text "new") row refreshed
      refreshed refreshed tokens tokens refreshes refl refreshes_again

abbrev reset : ResetPasswordDto
reset = record { token = text "t"; new_password = text "password" }

abbrev after_reset : Row
after_reset = record row {
  u = record row.u { hash = some (text "password") };
  token = record row.token { used = true };
}

resets :
    reset_password one plain reset row
    ≡ (done (true, text "Password reset successfully"), after_reset)
unfolding reset_password validate_reset_token Repository.get_password_reset_token
    Repository.change_password Repository.mark_token_used
resets = refl

reset_token_once_example :
    reset_password one plain (record { token = text "t"; new_password = text "again" }) after_reset
    ≡ (thrown (forbidden (text "Token has already been used")), after_reset)
reset_token_once_example =
    reset_token_once one plain one-Laws reset (true, text "Password reset successfully")
      (text "again") row after_reset after_reset resets refl

reset_then_login_example :
    login one plain
      (record { email = text "a@b.c"; username = text "a"; password = text "password" })
      after_reset
    ≡ open_session one plain (record row.u { hash = some (text "password") }) after_reset
reset_then_login_example =
    reset_then_login one plain
      (record { email = text "a@b.c"; username = text "a"; password = text "password" }) (text "t")
      row.token row.u (true, text "Password reset successfully") row after_reset one-Laws
      plain-Sound refl refl refl refl resets

abbrev credentials : AuthDto
credentials = record { email = text "a@b.c"; username = []; password = text "secret" }

abbrev profile : GoogleProfile
profile = record {
  id = text "g";
  email = text "a@b.c";
  first_name = text "a";
  email_verified = true;
}

links : validate_oauth_login one plain profile [] [] (text "google") row ≡ (done row.u, row)
unfolding validate_oauth_login Repository.find_account_by_provider known_account
    Service.find_by_email Repository.find_by_email link_or_create Repository.link_oauth_user
links = refl

validate_oauth_login_sound_example :
    (is_nil profile.email ≡ false)
    × (profile.email_verified ≡ true)
    × Returned one plain profile [] [] (text "google") row row.u row
validate_oauth_login_sound_example =
    validate_oauth_login_sound one plain profile [] [] (text "google") row row row.u links

abbrev moderator_token : JwtPayload
moderator_token = record { sub = id_number 1; email = text "a@b.c"; roles = some (moderator ∷ []) }

abbrev change : ChangePasswordDto
change = record { old_pass = text "secret"; new_pass = text "other" }

abbrev changed : Row
changed = record row { u = record row.u { hash = some (text "other") } }
