-- ===== src/Auth/Mailed.antt =====
-- `sendPasswordResetEmail` of src/auth/auth.service.ts: the token that it mails is one that
-- `validateResetToken` accepts.
use judge_it.Prelude.{◌+◌, ◌≡◌, refl, sym, ap, ◌∙◌, ◌++◌, some, false, ltb}
use judge_it.Prelude.Actions.{continue-eq-done, asks-eq-done}
use judge_it.Prelude.Results.{done}
use judge_it.Prelude.Text.{Text, text}
use judge_it.Auth.Access.{found_by_email}
use judge_it.Auth.Crypto.{Crypto, Mail}
use judge_it.Auth.Oauth.{quarter, send_to, send_password_reset_email}
use judge_it.Auth.Service.{validate_reset_token}
use judge_it.Users.Prisma.{Prisma, Laws}
use judge_it.Users.Repository.{create_password_reset_token, get_password_reset_token}
use judge_it.Users.Service as Service
use judge_it.Users.Types.{User, ResetToken}

-- The mail that has a token in its link.
abbrev pub reset_mail : Text → User → Text → Text → Mail
reset_mail email u host token = record {
  to = email;
  subject = text "Password Reset";
  template_name = text "reset_password";
  username = u.username;
  reset_link = text "http://" ++ (host ++ (text "/auth/reset-password/verify?token=" ++ token));
}

-- What is relied on of the mail service: it leaves the table of the tokens as it is.
abbrev pub KeepsTokens : {S : Type 0} → Prisma S → Crypto S → Type 0
KeepsTokens {S} db env =
    (hash : Text) (mail : Mail) (s t : S)
    → env.send_mail mail s ≡ (done tt, t)
    → db.token_find hash t ≡ db.token_find hash s

module _ {S : Type 0} (db : Prisma S) (env : Crypto S) where
  -- A token was mailed, and is found as one for the user.
  abbrev pub Mailed : Text → User → S → S → Type 0
  Mailed email u s t =
      (host : Text) × (m : S) × (row : ResetToken) × (env.send_mail
          (reset_mail email u host (env.random_bytes s)) m
        ≡ (done tt, t))
      × (db.token_find (env.sha256 (env.random_bytes s)) t ≡ some row)
      × (row.user_id ≡ u.id)
      × (row.expires_at ≡ env.now s + quarter)
      × (row.used ≡ false)

module _ {S : Type 0} (db : Prisma S) (env : Crypto S) (laws : Laws db) where
  valid_token :
      (token : Text) (row : ResetToken) (s : S)
      → db.token_find (env.sha256 token) s ≡ some row
      → row.used ≡ false
      → ltb row.expires_at (env.now s) ≡ false
      → validate_reset_token db env token s ≡ (done row, s)
  unfolding validate_reset_token get_password_reset_token
  valid_token token row s there unused fresh = rw (there, unused, fresh) refl

  send_to-Mailed :
      (email : Text) (u : User) (s t : S)
      → KeepsTokens db env
      → send_to db env email (some u) s ≡ (done tt, t)
      → Mailed db env email u s t
  unfolding send_to create_password_reset_token
  send_to-Mailed email u s t keeps h =
      let token = env.random_bytes s in
      let (x, m, created, h1) =
        continue-eq-done (db.token_create u.id (env.sha256 token) (env.now s + quarter) s) _ h in
      let (host, m', asked, sent) = continue-eq-done (env.host, m) _ h1 in
      let (host_is, same) = asks-eq-done asked in
      let (row, there, owner, until, unused) =
        laws.token_find-create (env.sha256 token) u.id (env.now s + quarter) s m x created in
      let mailed = ap (env.send_mail (reset_mail email u host token)) same ∙ sent in
      (
        host,
        m,
        row,
        mailed,
        keeps (env.sha256 token) (reset_mail email u host token) m t mailed ∙ there,
        owner,
        until,
        unused,
      )

  -- A request for a reset mail that returns, for the email of a user, has mailed a token to that
  -- email; and in every later state where the token is found as it was then, and that is not later
  -- than fifteen minutes after the request, `validateResetToken` accepts the token and gives the id
  -- of that user.
  pub mailed_token_valid :
      (email : Text) (u : User) (s t v : S)
      → KeepsTokens db env
      → send_password_reset_email db env email s ≡ (done tt, t)
      → db.user_find_by_email email s ≡ some u
      → db.token_find (env.sha256 (env.random_bytes s)) v
        ≡ db.token_find (env.sha256 (env.random_bytes s)) t
      → ltb (env.now s + quarter) (env.now v) ≡ false
      → (host : Text) × (m : S) × (row : ResetToken) × (env.send_mail
            (reset_mail email u host (env.random_bytes s))
            m
          ≡ (done tt, t))
        × (validate_reset_token db env (env.random_bytes s) v ≡ (done row, v))
        × (row.user_id ≡ u.id)
  unfolding send_password_reset_email
  mailed_token_valid email u s t v keeps h there kept fresh =
      let (o, s1, found, sent) =
        continue-eq-done (Service.find_by_email db env.now env.get_id email s) _ h in
      let (it, same) = found_by_email db env email found in
      let (host, m, row, mailed, stored, owner, until, unused) = send_to-Mailed email u s t keeps (
        ap (λ o. send_to db env email o s) (sym there ∙ it)
        ∙ ap (send_to db env email o) same
        ∙ sent) in
      (
        host,
        m,
        row,
        mailed,
        valid_token (env.random_bytes s) row v (kept ∙ stored) unused
            (ap (λ e. ltb e (env.now v)) until ∙ fresh),
        owner,
      )
