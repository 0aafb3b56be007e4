-- ===== src/Auth/Resets.antt =====
-- Reset tokens: what `resetPassword` asks of a token, and what it leaves.
use judge_it.Prelude.{
  ==_iff, ◌≡◌, ◌≤◌, refl, sym, ap, ◌∙◌, Bool, true, false, not, some, arith, ltb, length,
}
use judge_it.Prelude.Actions.{
  present, check, continue-eq-done, pure-eq-done, check-eq-done, present-eq-done,
}
use judge_it.Prelude.Results.{done, thrown}
use judge_it.Prelude.Text.{Text, text}
use judge_it.Auth.Crypto.{Crypto}
use judge_it.Auth.Service.{ResetPasswordDto, validate_reset_token, reset_password}
use judge_it.Users.Prisma.{Prisma, Laws}
use judge_it.Users.Repository.{change_password, get_password_reset_token, mark_token_used}
use judge_it.Users.Types.{User, set_hash, ResetToken, forbidden}

pub not-true : (b : Bool) → not b ≡ true → b ≡ false
not-true true h = sym h
not-true false h = refl

module _ {S : Type 0} (db : Prisma S) (env : Crypto S) (laws : Laws db) where
  -- A token is valid when its row is there, not used and not expired; the check changes nothing.
  validate_reset_token_sound :
      (token : Text) (row : ResetToken) (s t : S)
      → validate_reset_token db env token s ≡ (done row, t)
      → (db.token_find (env.sha256 token) s ≡ some row)
        × (row.used ≡ false)
        × (ltb row.expires_at (env.now s) ≡ false)
        × (s ≡ t)
  unfolding validate_reset_token get_password_reset_token
  validate_reset_token_sound token row s t h =
      let (r, s1, found, h1) =
        continue-eq-done (present (db.token_find (env.sha256 token) s) _ s) _ h in
      let (row_found, same) = present-eq-done (db.token_find (env.sha256 token) s) _ found in
      let (x, s2, unused, h2) = continue-eq-done (check (not r.used) _ s1) _ h1 in
      let (x', s3, fresh, h3) =
        continue-eq-done (check (not (ltb r.expires_at (env.now s2))) _ s2) _ h2 in
      let (is_unused, same') = check-eq-done (not r.used) _ unused in
      let (is_fresh, same'') = check-eq-done (not (ltb r.expires_at (env.now s2))) _ fresh in
      let (it, last) = pure-eq-done h3 in
      let until = same ∙ same' in
      (
        row_found ∙ ap some it,
        ap (λ x. x.used) (sym it) ∙ not-true r.used is_unused,
        ap (λ x. ltb x.expires_at (env.now s)) (sym it)
            ∙ ap (λ x. ltb r.expires_at (env.now x)) until
            ∙ not-true (ltb r.expires_at (env.now s2)) is_fresh,
        until ∙ same'' ∙ last,
      )

  used_token_refused :
      (token : Text) (row : ResetToken) (s : S)
      → db.token_find (env.sha256 token) s ≡ some row
      → row.used ≡ true
      → validate_reset_token db env token s
        ≡ (thrown (forbidden (text "Token has already been used")), s)
  unfolding validate_reset_token get_password_reset_token
  used_token_refused token row s e used = rw (e, used)

  -- What a reset that returned did: it took a valid token and a password of at least eight code
  -- units, stored a hash of the password, and marked the token as used.
  pub reset_steps :
      (dto : ResetPasswordDto) (answer : Bool × Text) (s t : S)
      → reset_password db env dto s ≡ (done answer, t)
      → (row : ResetToken) × (v : User) × (m : S) × (u : Unit {0}) × (db.token_find
            (env.sha256 dto.token)
            s
          ≡ some row)
        × (row.used ≡ false)
        × (ltb row.expires_at (env.now s) ≡ false)
        × (ltb (length dto.new_password) 8 ≡ false)
        × (db.user_update row.user_id (set_hash (env.hash dto.new_password s)) s ≡ (done v, m))
        × (db.token_mark_used row.id m ≡ (done u, t))
  unfolding reset_password change_password mark_token_used
  reset_steps dto answer s t h =
      let (row, s1, valid, h1) = continue-eq-done (validate_reset_token db env dto.token s) _ h in
      let (found, unused, fresh, same) = validate_reset_token_sound dto.token row s s1 valid in
      let (x, s2, long, h2) =
        continue-eq-done (check (not (ltb (length dto.new_password) 8)) _ s1) _ h1 in
      let (is_long, same') = check-eq-done (not (ltb (length dto.new_password) 8)) _ long in
      let (v, m, updated, h3) =
        continue-eq-done (db.user_update row.user_id (set_hash (env.hash dto.new_password s2)) s2) _
          h2 in
      let (u, s4, marked, h4) = continue-eq-done (db.token_mark_used row.id m) _ h3 in
      let until = same ∙ same' in
      (
        row,
        v,
        m,
        u,
        found,
        unused,
        fresh,
        not-true (ltb (length dto.new_password) 8) is_long,
        ap (λ x. db.user_update row.user_id (set_hash (env.hash dto.new_password x)) x) until
            ∙ updated,
        marked ∙ ap (λ x. (done u, x)) (pure-eq-done h4).1,
      )

  -- A reset token works once: after a reset that returned, in every state that holds the row of the
  -- token as that reset left it, a reset with the same token is refused, whatever the password, and
  -- changes nothing.
  pub reset_token_once :
      (dto : ResetPasswordDto) (answer : Bool × Text) (new_password : Text) (s t t' : S)
      → reset_password db env dto s ≡ (done answer, t)
      → db.token_find (env.sha256 dto.token) t' ≡ db.token_find (env.sha256 dto.token) t
      → reset_password db env (record { token = dto.token; new_password = new_password }) t'
        ≡ (thrown (forbidden (text "Token has already been used")), t')
  unfolding reset_password
  reset_token_once dto answer new_password s t t' h same =
      let (row, v, m, u, found, unused, fresh, long, updated, marked) =
        reset_steps dto answer s t h in
      let hashed = env.sha256 dto.token in
      let after : db.token_find hashed t ≡ some (record row { used = true }) = rw (
        laws.token_find-mark_used hashed row.id m t u marked,
        laws.token_find-update hashed row.user_id (set_hash (env.hash dto.new_password s)) s m v
            updated,
        found,
        (==_iff row.id row.id).1 refl,
      ) in
      rw (used_token_refused dto.token (record row { used = true }) t' (same ∙ after) refl)

  -- A reset that returns had a token that was stored, unused and not expired, and a password of at
  -- least eight code units; if the user's row is there, it holds a hash of the new password, and
  -- nothing else of it has changed.
  pub reset_password_sound :
      (dto : ResetPasswordDto) (answer : Bool × Text) (s t : S)
      → reset_password db env dto s ≡ (done answer, t)
      → (row : ResetToken) × (db.token_find (env.sha256 dto.token) s ≡ some row)
        × (row.used ≡ false)
        × (env.now s ≤ row.expires_at)
        × (8 ≤ length dto.new_password)
        × ((u : User)
            → db.user_find_by_id row.user_id s ≡ some u
            → db.user_find_by_id row.user_id t
              ≡ some (record u { hash = some (env.hash dto.new_password s) }))
  reset_password_sound dto answer s t h =
      let (row, v, m, u, found, unused, fresh, long, updated, marked) =
        reset_steps dto answer s t h in
      (
        row,
        found,
        unused,
        ground (arith, fresh),
        ground (arith, long),
        λ w there. rw (
          laws.find_by_id-mark_used row.user_id row.id m t u marked,
          laws.find_by_id-update row.user_id row.user_id (set_hash (env.hash dto.new_password s)) s
              m v updated,
          there,
          laws.find_by_id_lem row.user_id s w there,
        ),
      )
