-- ===== src/Email/Reset.antt =====
-- The mail with a reset link: `sendPasswordResetEmail` of src/auth/auth.service.ts with
-- src/email/email.service.ts as its mail service.
use judge_it.Prelude.{◌+◌, ◌≡◌, refl, sym, ap, ◌∙◌, List, [], ◌∷◌, ◌++◌, Option, none, some}
use judge_it.Prelude.Actions.{
  Action, ◌>>=◌, lift, pure, continue-eq-done, pure-eq-done, asks-eq-done,
}
use judge_it.Prelude.Results.{Result, done, thrown}
use judge_it.Prelude.Text.{Text, text}
use judge_it.Auth.Access.{found_by_email}
use judge_it.Auth.Crypto.{Crypto, Mail}
use judge_it.Auth.Mailed.{reset_mail}
use judge_it.Auth.Oauth.{quarter, send_to, send_password_reset_email}
use judge_it.Email.{
  one, string, Value, MailDto, MailOptions, Libraries, template_path, render_source,
  render_template, some_html, final_html, default_sender, mail_options, mail_transport, send_mail,
}
use judge_it.Users.Prisma.{Prisma}
use judge_it.Users.Repository.{create_password_reset_token}
use judge_it.Users.Service as Service
use judge_it.Users.Types.{User, Error}

-- `resetPasswordDto`.
unfoldable pub dto_of : Mail → MailDto
dto_of mail = record {
  to = one mail.to;
  subject = mail.subject;
  html = none;
  plain = none;
  template_name = some mail.template_name;
  template_data =
      some (
        (text "username", string mail.username) ∷ (text "reset_link", string mail.reset_link) ∷ []);
  sender = none;
}

abbrev pub link : Text → Text → Text
link host token = text "http://" ++ (host ++ (text "/auth/reset-password/verify?token=" ++ token))

abbrev pub values_of : User → Text → Text → List (Text × Value)
values_of u host token =
    (text "username", string u.username) ∷ (text "reset_link", string (link host token)) ∷ []

module _ {S Info : Type 0} (lib : Libraries S Info) where
  -- The mail service that the auth service is given.
  unfoldable pub mailer : Mail → Action S Error (Unit {0})
  mailer mail = do info ← send_mail lib (dto_of mail); pure tt

  abbrev pub mailing : Crypto S → Crypto S
  mailing env = record env { send_mail = mailer }

  -- The mail that the transport is given.
  abbrev pub sent_mail : Text → Text → MailOptions
  sent_mail email html = record {
    sender = default_sender lib;
    to = one email;
    subject = text "Password Reset";
    html = some html;
    plain = none;
  }

  rendered :
      (r : Result Error Text) (o : Option Text)
      → some_html lib r ≡ done o
      → (html : Text) × (r ≡ done html) × (o ≡ some html)
  rendered (done html) o h = (html, refl, cc)
  rendered (thrown e) o h = cc

  read_source :
      (file : Result Error Text) (values : List (Text × Value)) (html : Text)
      → render_source lib values file ≡ done html
      → (source : Text) × (file ≡ done source) × (lib.render source values ≡ done html)
  read_source (done source) values html h = (source, refl, h)
  read_source (thrown e) values html h = cc

  -- The template of the mail, rendered, went to the transport.
  abbrev pub Sent : Text → User → Text → Text → S → S → Type 0
  Sent email u host token s t =
      (source : Text) × (html : Text) × (info : Info) × (lib.read_file
          (template_path lib (text "reset_password"))
        ≡ done source)
      × (lib.render source (values_of u host token) ≡ done html)
      × (lib.transport (mail_transport lib) (sent_mail email html) s ≡ (done info, t))

  mailer_sends :
      (email : Text) (u : User) (host token : Text) (s t : S)
      → mailer (reset_mail email u host token) s ≡ (done tt, t)
      → Sent email u host token s t
  unfolding mailer send_mail dto_of final_html render_template mail_options
  mailer_sends email u host token s t h =
      let mail = dto_of (reset_mail email u host token) in
      let (info, s1, sent, h1) = continue-eq-done (send_mail lib mail s) _ h in
      let (o, s2, made, sent') = continue-eq-done (lift (final_html lib mail) s) _ sent in
      let (some_made, same) = asks-eq-done made in
      let (html, is_html, is_some) = rendered _ o some_made in
      let (source, read, shown) = read_source _ (values_of u host token) html is_html in
      (
        source,
        html,
        info,
        read,
        shown,
        ap (λ x. lib.transport (mail_transport lib) (mail_options lib mail x) s) (sym is_some)
            ∙ ap (lib.transport (mail_transport lib) (mail_options lib mail o)) same
            ∙ sent'
            ∙ ap (λ x. (done info, x)) (pure-eq-done h1).1,
      )

module _ {S Info : Type 0} (db : Prisma S) (env : Crypto S) (lib : Libraries S Info) where
  -- A request for a reset mail that returns, for the email of a user, has sent to that email a mail
  -- from the default sender, whose body is the template of the reset mail with the user's name and a
  -- link that holds the new token.
  pub reset_mail-Sent :
      (email : Text) (u : User) (s t : S)
      → send_password_reset_email db (mailing lib env) email s ≡ (done tt, t)
      → db.user_find_by_email email s ≡ some u
      → (host : Text) × (m : S) × (env.host ≡ done host)
        × Sent lib email u host (env.random_bytes s) m t
  unfolding send_password_reset_email send_to create_password_reset_token
  reset_mail-Sent email u s t h there =
      let crypto = mailing lib env in
      let (o, s1, found, sent) =
        continue-eq-done (Service.find_by_email db env.now env.get_id email s) _ h in
      let (it, same) = found_by_email db crypto email found in
      let token = env.random_bytes s in
      let h0 =
        ap (λ o. send_to db crypto email o s) (sym there ∙ it)
        ∙ ap (send_to db crypto email o) same
        ∙ sent in
      let (x, m, created, h1) =
        continue-eq-done (db.token_create u.id (env.sha256 token) (env.now s + quarter) s) _ h0 in
      let (host, m', asked, mailed) = continue-eq-done (env.host, m) _ h1 in
      let (host_is, same') = asks-eq-done asked in
      (host, m', host_is, mailer_sends lib email u host token m' t mailed)
