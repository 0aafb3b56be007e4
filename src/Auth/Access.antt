-- ===== src/Auth/Access.antt =====
-- Who is let in: what a login that returns was given, by password and by an identity provider, and
-- what a change of the password asks for.
use judge_it.Prelude.{
  ◌≡◌, ◌⊎◌, inl, inr, refl, ap, ◌∙◌, Bool, true, false, not, ◌||◌, Option, none, some, [], ◌∷◌,
  ◌++◌,
}
use judge_it.Prelude.Actions.{
  present, lift, check, continue-eq-done, pure-eq-done, asks-eq-done, check-eq-done,
  present-eq-done,
}
use judge_it.Prelude.Results.{done}
use judge_it.Prelude.Text.{Text, text, is_nil}
use judge_it.Auth.Crypto.{Crypto}
use judge_it.Auth.Oauth.{link_or_create, known_account, validate_oauth_login}
use judge_it.Auth.Resets.{not-true}
use judge_it.Auth.Service.{Tokens, truthy, refuse_oauth, open_session, login, invalid_credentials}
use judge_it.Users.Prisma.{Prisma}
use judge_it.Users.Repository as Repository
use judge_it.Users.Repository.{GoogleProfile, is_some, new_account, has_account}
use judge_it.Users.Service as Service
use judge_it.Users.Service.{AuthDto}
use judge_it.Users.Types.{User, Account, bad_request, unauthorized, forbidden}

module _ {S : Type 0} (db : Prisma S) (env : Crypto S) where
  pub has_account-state :
      (email : Text) {b : Bool} {s t : S}
      → has_account db env.now env.get_id email s ≡ (done b, t)
      → s ≡ t
  unfolding has_account
  has_account-state email h = (pure-eq-done h).1

  refuse_oauth-state :
      (u : User) (b : Bool) {x : Unit {0}} {s t : S}
      → refuse_oauth db env u b s ≡ (done x, t)
      → s ≡ t
  unfolding refuse_oauth
  refuse_oauth-state u b h =
      (check-eq-done (is_some (truthy u.hash) || not b)
        (forbidden (text "This account uses OAuth login. Please sign in with Google.")) h).1

  -- A login that returns has passed its checks without a change, and opens a session.
  pub login_opens :
      (dto : AuthDto) (s t : S) (tokens : Tokens)
      → login db env dto s ≡ (done tokens, t)
      → (u : User) × (db.user_find_by_email dto.email s ≡ some u)
        × (env.verify u.hash dto.password ≡ done true)
        × (open_session db env u s ≡ (done tokens, t))
  unfolding login Service.find_user Repository.find_by_email
  login_opens dto s t tokens h =
      let (u, s1, found, h1) =
        continue-eq-done (present (db.user_find_by_email dto.email s) _ s) _ h in
      let (row, same) = present-eq-done (db.user_find_by_email dto.email s) _ found in
      let (b, s1', asked, h1') =
        continue-eq-done (has_account db env.now env.get_id dto.email s1) _ h1 in
      let (x, s2, allowed, h2) = continue-eq-done (refuse_oauth db env u b s1') _ h1' in
      let same' = has_account-state dto.email asked ∙ refuse_oauth-state u b allowed in
      let (valid, s3, verified, h3) =
        continue-eq-done (lift (env.verify u.hash dto.password) s2) _ h2 in
      let (answer, same'') = asks-eq-done verified in
      let (y, s4, checked, h4) = continue-eq-done (check valid invalid_credentials s3) _ h3 in
      let (is_valid, last) = check-eq-done valid invalid_credentials checked in
      let until = same ∙ same' ∙ same'' ∙ last in
      (u, row, answer ∙ ap done is_valid, ap (open_session db env u) until ∙ h4)

  -- The user that a login by a provider returns.
  abbrev pub Returned : GoogleProfile → Text → Text → Text → S → User → S → Type 0
  Returned profile access_token refresh_token provider s u t =
      ((account : Account) × (db.account_find provider profile.id s ≡ some (account, u)))
      ⊎ ((db.account_find provider profile.id s ≡ none)
          × (db.user_find_by_email profile.email s ≡ some u))
      ⊎ ((db.account_find provider profile.id s ≡ none)
          × (db.user_find_by_email profile.email s ≡ none)
          × (db.user_create
                (record {
                  email = profile.email;
                  username = profile.first_name ++ env.get_id 4 s;
                  hash = none;
                })
                (new_account provider profile access_token refresh_token (env.now s) ∷ []) s
              ≡ (done u, t)))

  pub found_by_email :
      (email : Text) {o : Option User} {s t : S}
      → Service.find_by_email db env.now env.get_id email s ≡ (done o, t)
      → (db.user_find_by_email email s ≡ o) × (s ≡ t)
  unfolding Service.find_by_email Repository.find_by_email
  found_by_email email {o} {s} {t} h =
      let (x, s1, checked, h1) =
        continue-eq-done (check (not (is_nil email)) (bad_request (text "Email doesn't exist")) s) _
          h in
      let (there, same) =
        check-eq-done (not (is_nil email)) (bad_request (text "Email doesn't exist")) checked in
      let (it, same') = pure-eq-done h1 in
      (ap (db.user_find_by_email email) same ∙ it, same ∙ same')

  link_or_create_sound :
      (profile : GoogleProfile) (access_token refresh_token provider : Text) (s t : S) (u : User)
      (o : Option User)
      → db.account_find provider profile.id s ≡ none
      → db.user_find_by_email profile.email s ≡ o
      → link_or_create db env profile access_token refresh_token provider o s ≡ (done u, t)
      → Returned profile access_token refresh_token provider s u t
  unfolding link_or_create Repository.create_oauth_user
  link_or_create_sound profile access_token refresh_token provider s t u (some v) none_there e h =
      let (account, s1, linked, h1) =
        continue-eq-done
          (Repository.link_oauth_user db env.now env.get_id v provider profile access_token
            refresh_token s)
          _ h in
      inr (inl (none_there, e ∙ ap some (pure-eq-done h1).0))
  link_or_create_sound profile access_token refresh_token provider s t u none none_there e h =
      inr (inr (none_there, e, h))

  known_account_sound :
      (profile : GoogleProfile) (access_token refresh_token provider : Text) (s t : S) (u : User)
      (o : Option (Account × User))
      → db.account_find provider profile.id s ≡ o
      → known_account db env profile access_token refresh_token provider o s ≡ (done u, t)
      → Returned profile access_token refresh_token provider s u t
  unfolding known_account
  known_account_sound profile access_token refresh_token provider s t u (some (account, v)) e h =
      let (w, s1, updated, h1) =
        continue-eq-done
          (Repository.update_oauth_account db env.now env.get_id account access_token refresh_token
            s)
          _ h in
      inl (account, e ∙ ap (λ x. some (account, x)) (pure-eq-done h1).0)
  known_account_sound profile access_token refresh_token provider s t u none e h =
      let (o, s1, asked, h1) =
        continue-eq-done (Service.find_by_email db env.now env.get_id profile.email s) _ h in
      let (found, same) = found_by_email profile.email asked in
      link_or_create_sound profile access_token refresh_token provider s t u o e found
        (ap (link_or_create db env profile access_token refresh_token provider o) same ∙ h1)

  -- A login by a provider that returns was given a verified email, and it returns the owner of the
  -- provider's account; or, where there is no such account, the user with that email; or, where
  -- there is neither, a user that it has created with that email and without a password.
  pub validate_oauth_login_sound :
      (profile : GoogleProfile) (access_token refresh_token provider : Text) (s t : S) (u : User)
      → validate_oauth_login db env profile access_token refresh_token provider s ≡ (done u, t)
      → (is_nil profile.email ≡ false)
        × (profile.email_verified ≡ true)
        × Returned profile access_token refresh_token provider s u t
  unfolding validate_oauth_login Repository.find_account_by_provider
  validate_oauth_login_sound profile access_token refresh_token provider s t u h =
      let missing = unauthorized (text "Email not provided by OAuth provider") in
      let unverified =
        unauthorized (text "Please verify your email with the OAuth provider first") in
      let (x, s1, first, h1) =
        continue-eq-done (check (not (is_nil profile.email)) missing s) _ h in
      let (there, same) = check-eq-done (not (is_nil profile.email)) missing first in
      let (y, s2, second, h2) =
        continue-eq-done (check profile.email_verified unverified s1) _ h1 in
      let (verified, same') = check-eq-done profile.email_verified unverified second in
      (
        not-true (is_nil profile.email) there,
        verified,
        known_account_sound profile access_token refresh_token provider s t u
            (db.account_find provider profile.id s) refl
            (ap
                (λ x.
                  known_account db env profile access_token refresh_token provider
                    (db.account_find provider profile.id x) x)
                (same ∙ same')
              ∙ h2),
      )
