-- ===== src/Auth/Guards.antt =====
-- src/common/guards and the `validate` methods of src/auth/strategies/at-strategy.ts and
-- rt-strategy.ts: what decides whether a request goes through. What the framework read from the
-- handler and from the token is an argument; log lines are left out.
pub mod Allowed
use judge_it.Prelude.{
  ℕ, ◌≡◌, ◌⊎◌, ◌↔◌, inl, inr, refl, sym, ap, ◌∙◌, Bool, true, false, not, ◌||◌, ◌&&◌, List, [], ◌∷◌,
  Option, none, some, arith, if◌then◌else◌, ◌==◌, Bool-cases,
}
use judge_it.Prelude.Eq.{text_beq}
use judge_it.Prelude.Results.{Result, done, thrown}
use judge_it.Prelude.Text.{Text, text, is_nil}
use judge_it.Auth.Roles.{Role, user, admin, moderator}
use judge_it.Users.Types.{Error, unauthorized, forbidden}

-- The subject of a token: the type says a text, and `getTokens` signs a number.
pub data Subject : Type 0 where
  id_number : ℕ → Subject
  id_text : Text → Subject

-- `!sub`: the number 0 and the empty text are falsy.
abbrev pub is_falsy : Subject → Bool
is_falsy (id_number n) = n == 0
is_falsy (id_text t) = is_nil t

-- src/types/jwt-payload.type.ts; `roles` can be missing in a token.
pub record JwtPayload : Type 0 where
  pub sub : Subject
  pub email : Text
  pub roles : Option (List Role)

abbrev pub role_beq : Role → Role → Bool
role_beq user user = true
role_beq admin admin = true
role_beq moderator moderator = true
role_beq _ _ = false

-- `AtGuard.canActivate`, with the answer of the validation of the token that it passes on to.
unfoldable pub at_can_activate : Bool → Text → Result Error Bool → Result Error Bool
at_can_activate is_public path validated =
    if is_public
    then done true
    else (if text_beq path (text "/metrics") then done true else validated)

abbrev pub includes_role : List Role → Role → Bool
includes_role [] role = false
includes_role (r ∷ rs) role = role_beq r role || includes_role rs role

-- `requiredRoles.some((role) => userRoles.includes(role))`.
abbrev pub has_role : List Role → List Role → Bool
has_role [] user_roles = false
has_role (role ∷ required) user_roles =
    includes_role user_roles role || has_role required user_roles

abbrev pub or_no_roles : Option (List Role) → List Role
or_no_roles none = []
or_no_roles (some roles) = roles

abbrev pub check_role : List Role → Option JwtPayload → Result Error Bool
check_role required none = thrown (unauthorized (text "User not authenticated"))
check_role required (some u) =
    if has_role required (or_no_roles u.roles)
    then done true
    else thrown (forbidden (text "Insufficient permissions"))

-- `RolesGuard.canActivate`: the roles that the handler requires may be missing.
unfoldable pub roles_can_activate :
    Bool → Option (List Role) → Option JwtPayload → Result Error Bool
roles_can_activate is_public required u =
    if is_public
    then done true
    else (if is_nil (or_no_roles required) then done true else check_role (or_no_roles required) u)

abbrev pub error_or : Option Error → Error → Error
error_or none e = e
error_or (some err) e = err

-- `RtGuard.handleRequest`.
unfoldable pub handle_request : Option Error → Option JwtPayload → Result Error JwtPayload
handle_request none (some u) = done u
handle_request err u = thrown (error_or err (unauthorized (text "Invalid refresh token")))

-- `validate` of the access strategy: a payload without roles gets the role of a user.
abbrev pub default_roles : Option (List Role) → List Role
default_roles none = user ∷ []
default_roles (some roles) = roles

unfoldable pub at_validate : JwtPayload → Result Error JwtPayload
at_validate payload =
    if is_falsy payload.sub || is_nil payload.email
    then thrown (unauthorized (text "Invalid token payload"))
    else done (record payload { roles = some (default_roles payload.roles) })

-- `validate` of the refresh strategy, with the refresh token of the cookie.
unfoldable pub rt_validate : Text → JwtPayload → Result Error (JwtPayload × Text)
rt_validate refresh_token payload =
    if is_nil refresh_token
    then thrown (unauthorized (text "Refresh token not found"))
    else (if is_falsy payload.sub || is_nil payload.email
        then thrown (unauthorized (text "Invalid token payload"))
        else done (payload, refresh_token))
