-- ===== src/Auth/Admission.antt =====
-- What a request goes through before its handler: the guards of src/app.module.ts in their order, with
-- src/auth/strategies and src/common/guards, and `refreshTokens` of src/auth/auth.controller.ts behind
-- its own guard. The library that reads tokens is a parameter; the validation of bodies is left out.
use judge_it.Prelude.{
  ℕ, ◌+◌, ◌≡◌, Bool, true, false, ◌||◌, List, [], ◌∷◌, Option, none, some, if◌then◌else◌, ltb,
}
use judge_it.Prelude.Eq.{text_beq}
use judge_it.Prelude.Numbers.{show_nat}
use judge_it.Prelude.Results.{Result, done, thrown, ◌>>=◌}
use judge_it.Prelude.Text.{Text, text}
use judge_it.Auth.Controller.{RequestUser, Cookie}
use judge_it.Auth.Crypto.{Crypto, Payload, Secret, access_token_secret, refresh_token_secret}
use judge_it.Auth.Guards.{
  Subject, id_number, id_text, JwtPayload, at_can_activate, roles_can_activate, handle_request,
  at_validate, rt_validate,
}
use judge_it.Auth.Roles.{Role}
use judge_it.Users.Types.{Error, unauthorized}

-- What the access strategy is given of a token that was signed for a payload.
abbrev pub jwt_of : Payload → JwtPayload
jwt_of p = record { sub = id_number p.sub; email = p.email; roles = p.roles }

-- The verification of a token against a secret, at the time of a state, and how long tokens live.
pub record Verifier (S : Type 0) : Type 0 where
  pub read : Secret → Text → S → Result Error JwtPayload
  pub lifetime : Secret → ℕ

-- A token that was signed with a secret is read with it as long as it lives.
abbrev pub Reads : {S : Type 0} → Verifier S → Crypto S → Type 0
Reads {S} v env =
    (p : Payload) (secret : Secret) (s t : S) (token : Text)
    → env.sign p secret s ≡ done token
    → ltb (env.now s + v.lifetime secret) (env.now t) ≡ false
    → v.read secret token t ≡ done (jwt_of p)

-- What the framework knows of a request: the marks of its handler, its path and its cookies.
pub record Request : Type 0 where
  pub is_public : Bool
  pub required : Option (List Role)
  pub path : Text
  pub authentication : Option Text
  pub refresh : Option Text

abbrev pub succeeds : Result Error JwtPayload → Result Error Bool
succeeds (done v) = done true
succeeds (thrown e) = thrown e

abbrev pub user_in : Result Error JwtPayload → Option JwtPayload
user_in (done v) = some v
user_in (thrown e) = none

-- A subject as the text that `parseInt` and the pipe read.
abbrev pub as_text : Subject → Text
as_text (id_number n) = show_nat n
as_text (id_text t) = t

-- The properties of a validated payload that `GetCurrentUserId` reads.
abbrev pub request_user : JwtPayload → RequestUser
request_user v = record { sub = some (as_text v.sub); id = none; user_id = none }

-- What the browser sends back of a cookie.
abbrev pub cookie_value : Text → List Cookie → Option Text
cookie_value name [] = none
cookie_value name (c ∷ cs) = if text_beq c.name name then some c.value else cookie_value name cs

-- `RtGuard.handleRequest` with what the strategy gave or threw.
abbrev pub rt_guard : Result Error (JwtPayload × Text) → Result Error (JwtPayload × Text)
rt_guard (done (v, token)) = handle_request none (some v) >>= λ u. done (u, token)
rt_guard (thrown e) = handle_request (some e) none >>= λ u. thrown e

module _ {S : Type 0} (verifier : Verifier S) where
  -- `jwtFromRequest`, `secretOrKey` and `validate` of the access strategy.
  unfoldable pub validated : Option Text → S → Result Error JwtPayload
  validated none s = thrown (unauthorized (text "Unauthorized"))
  validated (some token) s =
      verifier.read access_token_secret token s >>= λ payload. at_validate payload

  -- The user that the first guard leaves in the request: it validates no token where it needs none.
  unfoldable pub user_of : Request → S → Option JwtPayload
  user_of r s =
      if r.is_public || text_beq r.path (text "/metrics")
      then none
      else user_in (validated r.authentication s)

  -- The two guards of every handler, `AtGuard` before `RolesGuard`.
  unfoldable pub admit : Request → S → Result Error Bool
  admit r s =
      at_can_activate r.is_public r.path (succeeds (validated r.authentication s)) >>= λ passed.
      roles_can_activate r.is_public r.required (user_of r s)

  -- The same of the refresh strategy.
  unfoldable pub refresh_validated : Option Text → S → Result Error (JwtPayload × Text)
  refresh_validated none s = thrown (unauthorized (text "No auth token"))
  refresh_validated (some token) s =
      verifier.read refresh_token_secret token s >>= λ payload. rt_validate token payload
