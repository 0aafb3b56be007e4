-- ===== src/Tests/Admission.antt =====
-- The guards at concrete requests, over the database of Tests.Database, with tokens that carry their
-- payload and can be read.
use judge_it.Prelude.{
  ℕ, zero, suc, sym, ◌∙◌, ◌≡◌, ◌↔◌, inr, refl, ap, List, [], ◌∷◌, Option, none, some, true, false,
}
use judge_it.Prelude.Actions.{continue, pure}
use judge_it.Prelude.Int.{pos}
use judge_it.Prelude.Numbers.{show_nat, parse_int}
use judge_it.Prelude.Results.{Result, done, thrown}
use judge_it.Prelude.Text.{Text, text}
use judge_it.Auth.Admission.{Verifier, Reads, Request, validated, user_of, admit, request_user}
use judge_it.Auth.Admitted.{Permitted, admit_iff, login_admits}
use judge_it.Auth.Controller.{Answer, answer_with, get_current_user_id, login, set_cookies}
use judge_it.Auth.Crypto.{Crypto, Sound}
use judge_it.Auth.Guards.{id_number, JwtPayload}
use judge_it.Auth.Refresh.{refresh_request, login_then_refresh}
use judge_it.Auth.Roles.{Role, user, admin, moderator}
use judge_it.Auth.Service as Service
use judge_it.Auth.Service.{get_tokens, open_session, refuse_oauth, update_rt_hash}
use judge_it.Tests.Database.{Row, one, one-Laws, plain, plain-Sound, row}
use judge_it.Users.Repository as Repository
use judge_it.Users.Service as Users
use judge_it.Users.Service.{AuthDto}
use judge_it.Users.Types.{User, Error, failure}

abbrev code : Role → ℕ
code user = 1
code admin = 2
code moderator = 3

abbrev role_of : ℕ → Role
role_of zero = user
role_of (suc zero) = user
role_of (suc (suc zero)) = admin
role_of (suc (suc (suc n))) = moderator

-- Roles before an email, and the way back.
abbrev roles_text : List Role → Text → Text
roles_text [] email = 0 ∷ email
roles_text (r ∷ rs) email = code r ∷ roles_text rs email

abbrev with_role : ℕ → List Role × Text → List Role × Text
with_role c (rs, email) = (role_of c ∷ rs, email)

abbrev read_roles : Text → List Role × Text
read_roles [] = ([], [])
read_roles (zero ∷ s) = ([], s)
read_roles (suc c ∷ s) = with_role (suc c) (read_roles s)

read_roles-roles_text :
    (rs : List Role) (email : Text) → read_roles (roles_text rs email) ≡ (rs, email)
read_roles-roles_text [] email = refl
read_roles-roles_text (user ∷ rs) email = ap (with_role 1) (read_roles-roles_text rs email)
read_roles-roles_text (admin ∷ rs) email = ap (with_role 2) (read_roles-roles_text rs email)
read_roles-roles_text (moderator ∷ rs) email = ap (with_role 3) (read_roles-roles_text rs email)

abbrev token_text : ℕ → Text → Option (List Role) → Result Error Text
token_text sub email none = thrown (failure (text "no roles"))
token_text sub email (some rs) = done (sub ∷ roles_text rs email)

abbrev coded : Crypto Row
coded = record plain { sign = λ p secret s. token_text p.sub p.email p.roles }

coded-Sound : Sound coded
coded-Sound = record {
  verify-hash = plain-Sound.verify-hash;
  verify_sound = plain-Sound.verify_sound;
}

abbrev payload_in : ℕ → List Role × Text → Result Error JwtPayload
payload_in sub (rs, email) = done (record { sub = id_number sub; email = email; roles = some rs })

abbrev payload_of : Text → Result Error JwtPayload
payload_of [] = thrown (failure (text "jwt malformed"))
payload_of (sub ∷ s) = payload_in sub (read_roles s)

abbrev verifier : Verifier Row
verifier = record { read = λ secret token s. payload_of token; lifetime = λ secret. 900 }

token_text-read :
    (sub : ℕ) (email token : Text) (o : Option (List Role))
    → token_text sub email o ≡ done token
    → payload_of token ≡ done (record { sub = id_number sub; email = email; roles = o })
token_text-read sub email token none h = cc
token_text-read sub email token (some rs) h =
    let same : sub ∷ roles_text rs email ≡ token = cc in
    ap payload_of (sym same) ∙ ap (payload_in sub) (read_roles-roles_text rs email)

verifier-Reads : Reads verifier coded
verifier-Reads p secret s t token h lives = token_text-read p.sub p.email token p.roles h

-- An admin, the credentials, and what a login leaves.
abbrev chief : User
chief = record row.u { role = admin ∷ [] }

abbrev chiefs : Row
chiefs = record row { u = chief }

abbrev credentials : AuthDto
credentials = record { email = text "a@b.c"; username = text "a"; password = text "secret" }

abbrev token : Text
token = 1 ∷ 2 ∷ 0 ∷ text "a@b.c"

abbrev answer : Answer
answer = answer_with (record { access_token = token; refresh_token = token })

abbrev logged_row : Row
logged_row = record chiefs { u = record chief { hashed_rt = some token } }

logged : login one coded credentials chiefs ≡ (done answer, logged_row)
unfolding login Service.login Users.find_user Repository.find_by_email Repository.has_account
    refuse_oauth open_session get_tokens update_rt_hash Repository.update_rt_hash
logged = refl

-- A request to a handler for admins, with the cookies of the login.
abbrev request : Request
request = record {
  is_public = false;
  required = some (admin ∷ []);
  path = text "/auth/admin";
  authentication = some token;
  refresh = some token;
}

abbrev chief_payload : JwtPayload
chief_payload = record { sub = id_number 1; email = text "a@b.c"; roles = some (admin ∷ []) }

admit_iff_example : (admit verifier request chiefs ≡ done true) ↔ (
    (t : Text) × (v : JwtPayload) × (some token ≡ some t)
    × (validated verifier (some t) chiefs ≡ done v)
    × Permitted (some (admin ∷ [])) v)
admit_iff_example = admit_iff verifier request chiefs refl refl

login_admits_example :
    (admit verifier request logged_row ≡ done true)
    × ((v : JwtPayload) × (user_of verifier request logged_row ≡ some v)
        × (get_current_user_id (some (request_user v)) ≡ some (show_nat 1))
        × (parse_int (show_nat 1) ≡ some (pos 1)))
unfolding set_cookies
login_admits_example =
    login_admits one coded verifier credentials chief chiefs logged_row logged_row answer request
      verifier-Reads logged refl refl refl refl refl refl refl (inr (admin, refl, refl))

login_then_refresh_example :
    refresh_request verifier one coded request logged_row
    ≡ continue
        (open_session one coded (record chief { hashed_rt = some token }) logged_row)
        (λ tokens. pure (answer_with tokens))
unfolding set_cookies
login_then_refresh_example =
    login_then_refresh verifier one coded credentials chief chiefs logged_row logged_row answer
      request one-Laws coded-Sound verifier-Reads logged refl refl refl refl
      (refl, refl, refl, refl)
