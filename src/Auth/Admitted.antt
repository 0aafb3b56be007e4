-- ===== src/Auth/Admitted.antt =====
-- Which requests reach their handler, and that the cookies of a login open the way.
use judge_it.Prelude.{
  ◌+◌, ◌≡◌, ◌⊎◌, ◌↔◌, inl, inr, refl, sym, ap, ◌∙◌, Bool, true, false, List, Option, none, some,
  arith, ltb, ◌==◌,
}
use judge_it.Prelude.Eq.{text_beq}
use judge_it.Prelude.Results.{Result, done, thrown, ◌>>=◌}
use judge_it.Prelude.Text.{Text, text, is_nil}
use judge_it.Auth.Admission.{
  Verifier, Reads, Request, jwt_of, cookie_value, succeeds, user_in, request_user, validated,
  user_of, admit,
}
use judge_it.Prelude.Actions.{continue-eq-done, pure-eq-done}
use judge_it.Prelude.Int.{pos}
use judge_it.Prelude.Numbers.{show_nat, parse_int}
use judge_it.Prelude.Numbers.Digits.{parse_int-show_nat}
use judge_it.Auth.Access.{login_opens}
use judge_it.Auth.Controller.{Answer, answer_with, set_cookies, get_current_user_id, login}
use judge_it.Auth.Crypto.{Crypto, access_token_secret}
use judge_it.Auth.Service as Service
use judge_it.Auth.Service.{Tokens, open_session}
use judge_it.Auth.Sessions.{payload_for, open_session_signs}
use judge_it.Users.Prisma.{Prisma}
use judge_it.Users.Service.{AuthDto}
use judge_it.Auth.Guards.{
  JwtPayload, includes_role, or_no_roles, at_can_activate, at_validate, roles_can_activate,
}
use judge_it.Auth.Guards.Allowed.{roles_can_activate_iff}
use judge_it.Auth.Roles.{Role}
use judge_it.Users.Types.{User, Error}

-- A user has one of the roles that are required, or none is required.
abbrev pub Permitted : Option (List Role) → JwtPayload → Type 0
Permitted required v =
    (is_nil (or_no_roles required) ≡ true)
    ⊎ ((role : Role) × (includes_role (or_no_roles required) role ≡ true)
        × (includes_role (or_no_roles v.roles) role ≡ true))

-- The guard of the roles after a token that was read or not.
abbrev guarded : Option (List Role) → Result Error JwtPayload → Result Error Bool
guarded required res = succeeds res >>= λ passed. roles_can_activate false required (user_in res)

guarded_iff :
    (required : Option (List Role)) (res : Result Error JwtPayload)
    → (guarded required res ≡ done true)
      ↔ ((v : JwtPayload) × (res ≡ done v) × Permitted required v)
guarded_iff required (thrown e) = (λ h. cc, λ found. let there = found.1 in cc)
guarded_iff required (done v) =
    let allowed = roles_can_activate_iff false required (some v) in
    (
      λ h. elim (allowed.0 h) [
        | inl p ↦ absurd (ground (arith, p))
        | inr (inl n) ↦ (v, refl, inl n)
        | inr (inr (w, same, role, there, theirs)) ↦ (w, cc, inr (role, there, theirs))
      ],
      λ found. elim found.2 [
        | inl n ↦ allowed.1 (inr (inl n))
        | inr (role, there, theirs) ↦
            allowed.1 (inr (inr (found.0, ap user_in found.1, role, there, theirs)))
      ],
    )

module _ {S : Type 0} (verifier : Verifier S) where
  guards_in_order :
      (r : Request) (s : S)
      → r.is_public ≡ false
      → text_beq r.path (text "/metrics") ≡ false
      → admit verifier r s ≡ guarded r.required (validated verifier r.authentication s)
  unfolding admit user_of at_can_activate
  guards_in_order r s closed other = rw (closed, other) refl

  has_cookie :
      (o : Option Text) (s : S) {v : JwtPayload}
      → validated verifier o s ≡ done v
      → (token : Text) × (o ≡ some token) × (validated verifier (some token) s ≡ done v)
  unfolding validated
  has_cookie none s h = cc
  has_cookie (some token) s h = (token, refl, h)

  -- A request to a handler that is not public, and not to the metrics, reaches it exactly when the
  -- token of its cookie is read and validated and gives a user with one of the roles required, if any
  -- are.
  pub admit_iff :
      (r : Request) (s : S)
      → r.is_public ≡ false
      → text_beq r.path (text "/metrics") ≡ false
      → (admit verifier r s ≡ done true) ↔ (
          (token : Text) × (v : JwtPayload) × (r.authentication ≡ some token)
          × (validated verifier (some token) s ≡ done v)
          × Permitted r.required v)
  admit_iff r s closed other =
      let order = guards_in_order r s closed other in
      let through = guarded_iff r.required (validated verifier r.authentication s) in
      (
        λ h.
            (let (v, valid, permitted) = through.0 (sym order ∙ h) in
              let (token, there, read) = has_cookie r.authentication s valid in
              (token, v, there, read, permitted)),
        λ found.
            order
            ∙ through.1 (found.1, ap (λ o. validated verifier o s) found.2 ∙ found.3, found.4),
      )

  -- What the access token of a payload opens while it lives.
  token_admits :
      (r : Request) (token : Text) (v : JwtPayload) (s : S)
      → r.is_public ≡ false
      → text_beq r.path (text "/metrics") ≡ false
      → r.authentication ≡ some token
      → validated verifier (some token) s ≡ done v
      → Permitted r.required v
      → (admit verifier r s ≡ done true) × (user_of verifier r s ≡ some v)
  unfolding user_of
  token_admits r token v s closed other there valid permitted = (
    (admit_iff r s closed other).1 (token, v, there, valid, permitted),
    rw (closed, other, there, valid) refl,
  )

pub same_user : (u v : User) (o : Option User) → o ≡ some u → o ≡ some v → v ≡ u
same_user u v o h k = cc

module _ {S : Type 0} (db : Prisma S) (env : Crypto S) where
  -- The handler of a login opens a session, and its answer has the tokens in its cookies.
  pub login_answer :
      (dto : AuthDto) (s t : S) (answer : Answer)
      → login db env dto s ≡ (done answer, t)
      → (tokens : Tokens) × (u : User) × (answer_with tokens ≡ answer)
        × (db.user_find_by_email dto.email s ≡ some u)
        × (open_session db env u s ≡ (done tokens, t))
  unfolding login
  login_answer dto s t answer h =
      let (tokens, s1, logged, h1) = continue-eq-done (Service.login db env dto s) _ h in
      let (it, same) = pure-eq-done h1 in
      let (u, row, verified, opened) = login_opens db env dto s s1 tokens logged in
      (tokens, u, it, row, opened ∙ ap (λ x. (done tokens, x)) same)

  -- A login opens the handlers: while the access token of its cookies lives, and where the user's
  -- email is not empty and the id is not 0, a request with that cookie, of a path other than
  -- '/metrics', reaches every handler that is not public and requires no role, or one that the user
  -- had at the login, and the handler is given the id of that user.
  pub login_admits :
      (verifier : Verifier S) (dto : AuthDto) (u : User) (s t t' : S) (answer : Answer)
      (r : Request)
      → Reads verifier env
      → login db env dto s ≡ (done answer, t)
      → db.user_find_by_email dto.email s ≡ some u
      → is_nil u.email ≡ false
      → (u.id == 0) ≡ false
      → r.authentication ≡ cookie_value (text "Authentication") answer.cookies
      → ltb (env.now s + verifier.lifetime access_token_secret) (env.now t') ≡ false
      → r.is_public ≡ false
      → text_beq r.path (text "/metrics") ≡ false
      → Permitted r.required (jwt_of (payload_for u))
      → (admit verifier r t' ≡ done true)
        × ((v : JwtPayload) × (user_of verifier r t' ≡ some v)
            × (get_current_user_id (some (request_user v)) ≡ some (show_nat u.id))
            × (parse_int (show_nat u.id) ≡ some (pos u.id)))
  unfolding validated at_validate set_cookies get_current_user_id
  login_admits verifier dto u s t t' answer r reads logged there named numbered cookie lives closed
        other permitted =
      let (tokens, v, it, found, opened) = login_answer dto s t answer logged in
      let same = same_user u v (db.user_find_by_email dto.email s) there found in
      let signed =
        (open_session_signs db env u s t tokens
          (ap (λ x. open_session db env x s) (sym same) ∙ opened)).0 in
      let (through, user) =
        token_admits verifier r tokens.access_token (jwt_of (payload_for u)) t' closed other
          (cookie ∙ ap (λ a. cookie_value (text "Authentication") a.cookies) (sym it))
          (rw
            (
              reads (payload_for u) access_token_secret s t' tokens.access_token signed lives,
              numbered,
              named,
            )
            refl)
          permitted in
      (through, (jwt_of (payload_for u), user, refl, parse_int-show_nat u.id))
