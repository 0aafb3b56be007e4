-- ===== src/Auth/Logins.antt =====
-- What the tokens of a login by the provider allow.
use judge_it.Prelude.{◌≡◌, refl, ap, ◌∙◌, false, ◌==◌, [], ◌∷◌, none, some}
use judge_it.Prelude.Actions.{continue-eq-done, pure-eq-done, asks-eq-done}
use judge_it.Prelude.Results.{done, thrown}
use judge_it.Prelude.Text.{text, is_nil}
use judge_it.Auth.Admission.{jwt_of}
use judge_it.Auth.Sessions.{both-eq-done}
use judge_it.Auth.Controller.{Answer, get_current_user, google_auth_callback, google_callback_for}
use judge_it.Auth.Crypto.{Crypto, Payload, access_token_secret, refresh_token_secret}
use judge_it.Auth.Guards.{id_number, JwtPayload, at_validate, roles_can_activate}
use judge_it.Auth.Roles.{user, admin}
use judge_it.Auth.Service.{get_tokens, update_rt_hash}
use judge_it.Users.Prisma.{Prisma}
use judge_it.Users.Types.{User, forbidden}

module _ {S : Type 0} (db : Prisma S) (env : Crypto S) where
  -- A callback of the provider's login that returns for a user, an admin for instance, whose email is
  -- not empty and whose id is not 0, has signed the access token of its answer for a payload of that
  -- id without roles; the access strategy takes the payload for one of an ordinary user, and a handler
  -- that is for admins is refused to it.
  pub google_admin_refused :
      (u : User) (s t : S) (answer : Answer)
      → google_callback_for db env u s ≡ (done answer, t)
      → is_nil u.email ≡ false
      → (u.id == 0) ≡ false
      → (p : Payload) × (v : JwtPayload) × (env.sign p access_token_secret s
          ≡ done answer.body.access_token)
        × (p.sub ≡ u.id)
        × (p.roles ≡ none)
        × (at_validate (jwt_of p) ≡ done v)
        × (v.roles ≡ some (user ∷ []))
        × (roles_can_activate false (some (admin ∷ [])) (some v)
            ≡ thrown (forbidden (text "Insufficient permissions")))
  unfolding google_callback_for google_auth_callback get_current_user get_tokens at_validate
      roles_can_activate
  google_admin_refused u s t answer h named numbered =
      let p : Payload = record { sub = u.id; email = u.email; roles = none } in
      let v : JwtPayload = record {
        sub = id_number u.id;
        email = u.email;
        roles = some (user ∷ []);
      } in
      let (tokens, s1, signed, h1) = continue-eq-done (get_tokens db env u.id u.email none s) _ h in
      let (made, same) = asks-eq-done signed in
      let (w, s2, updated, h2) =
        continue-eq-done (update_rt_hash db env u.id tokens.refresh_token s1) _ h1 in
      let (it, last) = pure-eq-done h2 in
      (
        p,
        v,
        (both-eq-done (env.sign p access_token_secret s) (env.sign p refresh_token_secret s) tokens
              made).0
            ∙ ap (λ a. done a.body.access_token) it,
        refl,
        refl,
        rw (numbered, named) refl,
        refl,
        refl,
      )
