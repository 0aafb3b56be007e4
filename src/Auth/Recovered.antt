-- ===== src/Auth/Recovered.antt =====
-- `resetPassword` and `login` of src/auth/auth.service.ts, one after the other.
use judge_it.Prelude.{ℕ, Bool, none, ◌≡◌, refl, sym, ap, ◌∙◌, false, Option, some, ==_iff}
use judge_it.Prelude.Results.{done}
use judge_it.Prelude.Text.{Text, is_nil}
use judge_it.Auth.Crypto.{Crypto, Sound}
use judge_it.Auth.Registered.{login_with_hash}
use judge_it.Auth.Resets.{reset_steps}
use judge_it.Auth.Service.{open_session, login, reset_password}
use judge_it.Users.Prisma.{Prisma, Laws}
use judge_it.Users.Service.{AuthDto}
use judge_it.Users.Types.{User, set_hash, ResetToken}

abbrev owner_of : Option ResetToken → ℕ
owner_of none = 0
owner_of (some row) = row.user_id

module _ {S : Type 0} (db : Prisma S) (env : Crypto S) where
  -- Who has forgotten the password gets in again: after a reset that returns, for a token of the user
  -- with the email, and where the hash of the new password is not the empty text, a login with that
  -- email and the new password passes every check and opens a session for the user with the new hash.
  pub reset_then_login :
      (dto : AuthDto) (token : Text) (row : ResetToken) (u : User) (answer : Bool × Text) (s t : S)
      → Laws db
      → Sound env
      → is_nil (env.hash dto.password s) ≡ false
      → db.token_find (env.sha256 token) s ≡ some row
      → row.user_id ≡ u.id
      → db.user_find_by_email dto.email s ≡ some u
      → reset_password db env (record { token = token; new_password = dto.password }) s
        ≡ (done answer, t)
      → login db env dto t
        ≡ open_session db env (record u { hash = some (env.hash dto.password s) }) t
  reset_then_login dto token row u answer s t laws sound filled there owner found h =
      let (row', v, m, x, there', unused, fresh, long, updated, marked) =
        reset_steps db env laws (record { token = token; new_password = dto.password }) answer s t
          h in
      let hashed = env.hash dto.password s in
      let same : row'.user_id ≡ u.id = ap owner_of (sym there' ∙ there) ∙ owner in
      let after : db.user_find_by_email dto.email t ≡ some (record u { hash = some hashed }) =
        rw
          (
            laws.find_by_email-mark_used dto.email row'.id m t x marked,
            laws.find_by_email-update dto.email row'.user_id (set_hash hashed) s m v updated,
            found,
            (==_iff u.id row'.user_id).1 (sym same),
          )
          refl in
      login_with_hash db env laws dto (record u { hash = some hashed }) hashed t after refl filled
        (sound.verify-hash dto.password s)
