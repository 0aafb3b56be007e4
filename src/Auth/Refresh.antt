-- ===== src/Auth/Refresh.antt =====
-- `refreshTokens` of src/auth/auth.controller.ts behind its own guard: from the cookies of a request to
-- the new session.
use judge_it.Prelude.{ℕ, ◌+◌, ◌≡◌, refl, sym, ap, ◌∙◌, Option, none, some, true, false, ltb, ◌==◌}
use judge_it.Prelude.Actions.{Action, ◌>>=◌, continue, asks, present, pure}
use judge_it.Prelude.Int.{ℤ, pos, negsuc}
use judge_it.Prelude.Numbers.{parse_int}
use judge_it.Prelude.Numbers.Digits.{parse_int-show_nat}
use judge_it.Prelude.Results.{done}
use judge_it.Prelude.Text.{Text, text, is_nil}
use judge_it.Auth.Admitted.{login_answer, same_user}
use judge_it.Auth.Admission.{
  Verifier, Reads, Request, as_text, jwt_of, cookie_value, rt_guard, refresh_validated,
}
use judge_it.Auth.Controller.{Answer, answer_with, set_cookies, login, refresh_tokens}
use judge_it.Auth.Crypto.{Crypto, Sound, refresh_token_secret}
use judge_it.Auth.Guards.{handle_request, rt_validate}
use judge_it.Auth.Service as Service
use judge_it.Auth.Service.{Tokens, truthy, session_hash, open_session}
use judge_it.Auth.Sessions.{payload_for, open_session_signs, open_session_stores}
use judge_it.Users.Prisma.{Prisma, Laws}
use judge_it.Users.Repository as Repository
use judge_it.Users.Service.{AuthDto}
use judge_it.Users.Types.{User, Error, bad_request}

-- The pipe that reads a number from the user's id; ids are not negative.
abbrev pub natural : Option ℤ → Option ℕ
natural none = none
natural (some (pos n)) = some n
natural (some (negsuc n)) = none

module _ {S : Type 0} (verifier : Verifier S) (db : Prisma S) (env : Crypto S) where
  -- A request to refresh a session: the guard of the refresh token, the pipe, and the handler.
  unfoldable pub refresh_request : Request → Action S Error Answer
  refresh_request r = do
    (v, token) ← asks (λ s. rt_guard (refresh_validated verifier r.refresh s))
    id ←
        present (natural (parse_int (as_text v.sub)))
          (bad_request (text "Validation failed (numeric string is expected)"))
    refresh_tokens db env id token

  -- A token that was signed for a user is taken by the guard.
  guard_takes :
      (u : User) (token : Text) (s t : S)
      → Reads verifier env
      → env.sign (payload_for u) refresh_token_secret s ≡ done token
      → ltb (env.now s + verifier.lifetime refresh_token_secret) (env.now t) ≡ false
      → is_nil token ≡ false
      → (u.id == 0) ≡ false
      → is_nil u.email ≡ false
      → rt_guard (refresh_validated verifier (some token) t) ≡ done (jwt_of (payload_for u), token)
  unfolding refresh_validated rt_validate handle_request
  guard_takes u token s t reads signed lives filled numbered named =
      rw
        (reads (payload_for u) refresh_token_secret s t token signed lives, filled, numbered, named)
        refl

  -- A user whose row has a hash of the token gets a new session.
  session_taken :
      (u : User) (token h : Text) (t : S)
      → db.user_find_by_id u.id t ≡ some (record u { hashed_rt = some h })
      → is_nil h ≡ false
      → env.verify (some h) token ≡ done true
      → Service.refresh_tokens db env u.id token t
        ≡ open_session db env (record u { hashed_rt = some h }) t
  unfolding Service.refresh_tokens session_hash Repository.find_by_id
  session_taken u token h t row filled accepted = rw (row, filled, accepted) refl

  refresh_request_opens :
      (u w : User) (token : Text) (r : Request) (t : S)
      → r.refresh ≡ some token
      → rt_guard (refresh_validated verifier (some token) t) ≡ done (jwt_of (payload_for u), token)
      → Service.refresh_tokens db env u.id token t ≡ open_session db env w t
      → refresh_request r t
        ≡ continue (open_session db env w t) (λ tokens. pure (answer_with tokens))
  unfolding refresh_request refresh_tokens
  refresh_request_opens u w token r t cookie guarded taken =
      rw (cookie, guarded, parse_int-show_nat u.id, taken) refl

  -- A login can be refreshed: while the refresh token of its cookies lives, and where the user's row
  -- is as the login left it and neither that token, its hash nor the user's email is empty and the id is
  -- not 0, a request to refresh with that cookie passes the guard, the pipe and the checks, and opens a session for
  -- the user.
  pub login_then_refresh :
      (dto : AuthDto) (u : User) (s t t' : S) (answer : Answer) (r : Request)
      → Laws db
      → Sound env
      → Reads verifier env
      → login db env dto s ≡ (done answer, t)
      → db.user_find_by_email dto.email s ≡ some u
      → r.refresh ≡ cookie_value (text "Refresh") answer.cookies
      → ltb (env.now s + verifier.lifetime refresh_token_secret) (env.now t') ≡ false
      → db.user_find_by_id u.id t' ≡ db.user_find_by_id u.id t
      → (is_nil answer.body.refresh_token ≡ false)
        × (is_nil (env.hash answer.body.refresh_token s) ≡ false)
        × (is_nil u.email ≡ false)
        × ((u.id == 0) ≡ false)
      → refresh_request r t'
        ≡ continue
            (open_session db env
              (record u { hashed_rt = some (env.hash answer.body.refresh_token s) })
              t')
            (λ tokens. pure (answer_with tokens))
  unfolding set_cookies
  login_then_refresh dto u s t t' answer r laws sound reads logged there cookie lives row filled =
      let (tokens, v, it, found, opened) = login_answer db env dto s t answer logged in
      let same = same_user u v (db.user_find_by_email dto.email s) there found in
      let opened' = ap (λ x. open_session db env x s) (sym same) ∙ opened in
      let token = tokens.refresh_token in
      let as_answered : token ≡ answer.body.refresh_token = ap (λ a. a.body.refresh_token) it in
      let stored =
        open_session_stores db env laws u s t tokens (laws.find_by_email-id dto.email s u there)
          opened' in
      refresh_request_opens u _ answer.body.refresh_token r t'
        (cookie ∙ ap (λ a. cookie_value (text "Refresh") a.cookies) (sym it) ∙ ap some as_answered)
        (guard_takes u answer.body.refresh_token s t' reads
          ((open_session_signs db env u s t tokens opened').1 ∙ ap done as_answered) lives filled.0
          filled.3 filled.2)
        (session_taken u answer.body.refresh_token (env.hash answer.body.refresh_token s) t'
          (row ∙ stored ∙ ap (λ x. some (record u { hashed_rt = some (env.hash x s) })) as_answered)
          filled.1 (sound.verify-hash answer.body.refresh_token s))
