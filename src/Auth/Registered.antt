-- ===== src/Auth/Registered.antt =====
-- `register` and `login` of src/auth/auth.service.ts, one after the other.
use judge_it.Prelude.{ℕ, ◌≡◌, refl, sym, ap, ◌∙◌, not, true, false, Option, some, arith, ◌==◌, []}
use judge_it.Prelude.Actions.{check, continue-eq-done, pure-eq-done}
use judge_it.Prelude.Results.{done}
use judge_it.Prelude.Text.{Text, text, is_nil}
use judge_it.Auth.Crypto.{Crypto, Sound}
use judge_it.Auth.Service.{
  Tokens, get_tokens, update_rt_hash, open_session, register, refuse_oauth, login,
}
use judge_it.Auth.Sessions.{get_tokens-state}
use judge_it.Users.Prisma.{Prisma, Laws, patch_if}
use judge_it.Users.Repository.{is_some}
use judge_it.Users.Repository as Repository
use judge_it.Users.Service as Service
use judge_it.Users.Service.{AuthDto}
use judge_it.Users.Types.{User, NewUser, set_hashed_rt, conflict}

patch_if-hash :
    (id : ℕ) (rt : Option Text) (u : User)
    → (v : User) × (patch_if (λ x. x.id == id) (set_hashed_rt rt) (some u) ≡ some v)
      × (v.hash ≡ u.hash)
patch_if-hash id rt u = (_, refl, ground arith)

module _ {S : Type 0} (db : Prisma S) (env : Crypto S) (laws : Laws db) where
  -- A session that was opened leaves the hash of the password.
  open_session-hash :
      (email : Text) (u : User) (s t : S) (tokens : Tokens)
      → db.user_find_by_email email s ≡ some u
      → open_session db env u s ≡ (done tokens, t)
      → (v : User) × (db.user_find_by_email email t ≡ some v) × (v.hash ≡ u.hash)
  unfolding open_session update_rt_hash Repository.update_rt_hash
  open_session-hash email u s t tokens row h =
      let (made, s1, signed, h1) =
        continue-eq-done (get_tokens db env u.id u.email (some u.role) s) _ h in
      let (w, s2, stored, h2) =
        continue-eq-done (update_rt_hash db env u.id made.refresh_token s1) _ h1 in
      let same = get_tokens-state db env laws u s s1 made signed in
      let rt = some (env.hash made.refresh_token s1) in
      let (v, patched, hash) = patch_if-hash u.id rt u in
      (
        v,
        ap (db.user_find_by_email email) (sym (pure-eq-done h2).1)
            ∙ laws.find_by_email-update email u.id (set_hashed_rt rt) s1 s2 w stored
            ∙ ap (patch_if (λ x. x.id == u.id) (set_hashed_rt rt))
                (ap (db.user_find_by_email email) (sym same) ∙ row)
            ∙ patched,
        hash,
      )

  pub login_with_hash :
      (dto : AuthDto) (u : User) (h : Text) (t : S)
      → db.user_find_by_email dto.email t ≡ some u
      → u.hash ≡ some h
      → is_nil h ≡ false
      → env.verify (some h) dto.password ≡ done true
      → login db env dto t ≡ open_session db env u t
  unfolding login Service.find_user Repository.find_by_email Repository.has_account refuse_oauth
  login_with_hash dto u h t row hash some_hash verified = rw (row, hash, some_hash, verified) refl

  -- Who has registered can log in: in the state that a registration leaves, and where the hash of
  -- the password is not the empty text, a login with the same email and password passes every check
  -- and opens a session for the user found by that email, whose hash is the one that the
  -- registration made.
  pub register_then_login :
      (dto : AuthDto) (s t : S) (tokens : Tokens)
      → Sound env
      → is_nil (env.hash dto.password s) ≡ false
      → register db env dto s ≡ (done tokens, t)
      → (u : User) × (db.user_find_by_email dto.email t ≡ some u)
        × (u.hash ≡ some (env.hash dto.password s))
        × (login db env dto t ≡ open_session db env u t)
  unfolding register Service.create_user Repository.find_by_email Repository.create_user
  register_then_login dto s t tokens sound some_hash h =
      let hashed = env.hash dto.password s in
      let new : NewUser = record {
        email = dto.email;
        username = dto.username;
        hash = some hashed;
      } in
      let (u, s1, created, h1) =
        continue-eq-done
          (Service.create_user db env.now env.get_id (record dto { password = hashed }) s) _ h in
      let (x, s2, checked, made) =
        continue-eq-done
          (check (not (is_some (db.user_find_by_email dto.email s)))
            (conflict (text "User already exists")) s)
          _ created in
      let (there, hash) = laws.find_by_email-create new [] s2 s1 u made in
      let (v, row, kept) = open_session-hash dto.email u s1 t tokens there h1 in
      (
        v,
        row,
        kept ∙ hash,
        login_with_hash dto v hashed t row (kept ∙ hash) some_hash
            (sound.verify-hash dto.password s),
      )
