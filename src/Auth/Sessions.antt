-- ===== src/Auth/Sessions.antt =====
-- Sessions: what a login and a refresh leave in the database, and what a logout takes away.
use judge_it.Prelude.{
  ℕ, ==_iff, [], ◌∷◌, ap, ◌≡◌, refl, sym, ◌∙◌, true, ◌&&◌, Option, none, some, arith, ◌==◌, inl,
  inr, Option-cases,
}
use judge_it.Prelude.Actions.{
  continue-eq-done, present, lift, check, pure-eq-done, asks-eq-done, check-eq-done,
  present-eq-done,
}
use judge_it.Prelude.Results.{Result, done, thrown}
use judge_it.Prelude.Text.{Text}
use judge_it.Auth.Crypto.{Crypto, Sound, Payload, access_token_secret, refresh_token_secret}
use judge_it.Auth.Service.{
  Tokens, both, truthy, access_denied, update_rt_hash, get_tokens, open_session, logout,
  session_hash, refresh_tokens,
}
use judge_it.Users.Prisma.{Prisma, Laws, patch_if}
use judge_it.Users.Repository as Repository
use judge_it.Users.Repository.{is_some, find_by_id, delete_rt}
use judge_it.Users.Types.{User, Error, set_hashed_rt, apply}

abbrev hashed_rt_of : Option User → Option Text
hashed_rt_of none = none
hashed_rt_of (some u) = u.hashed_rt

pub both-eq-done :
    (a b : Result Error Text) (tokens : Tokens)
    → both a b ≡ done tokens
    → (a ≡ done tokens.access_token) × (b ≡ done tokens.refresh_token)
both-eq-done (done x) (done y) tokens h = (cc, cc)
both-eq-done (done x) (thrown e) tokens h = cc
both-eq-done (thrown e) b tokens h = cc

-- What the tokens of a session are signed for.
abbrev pub payload_for : User → Payload
payload_for u = record { sub = u.id; email = u.email; roles = some u.role }

module _ {S : Type 0} (db : Prisma S) (env : Crypto S) where
  -- The tokens of a session are signed for its user, in the state that it began in.
  pub open_session_signs :
      (u : User) (s t : S) (tokens : Tokens)
      → open_session db env u s ≡ (done tokens, t)
      → (env.sign (payload_for u) access_token_secret s ≡ done tokens.access_token)
        × (env.sign (payload_for u) refresh_token_secret s ≡ done tokens.refresh_token)
  unfolding open_session get_tokens
  open_session_signs u s t tokens h =
      let (made, s1, signed, h1) =
        continue-eq-done (get_tokens db env u.id u.email (some u.role) s) _ h in
      let (v, s2, stored, h2) =
        continue-eq-done (update_rt_hash db env u.id made.refresh_token s1) _ h1 in
      both-eq-done (env.sign (payload_for u) access_token_secret s)
        (env.sign (payload_for u) refresh_token_secret s) tokens
        ((asks-eq-done signed).0 ∙ ap done (pure-eq-done h2).0)

module _ {S : Type 0} (db : Prisma S) (env : Crypto S) (laws : Laws db) where
  cleared :
      (id : ℕ) (o : Option User)
      → ((u : User) → o ≡ some u → (u.id == id) ≡ true)
      → (t : S)
      → session_hash db env
          (patch_if (λ u. u.id == id && is_some u.hashed_rt) (set_hashed_rt none) o)
          t
        ≡ (thrown access_denied, t)
  unfolding session_hash
  cleared id none own t = refl
  cleared id (some u) own t = elim (Option-cases u.hashed_rt) [
    | inl e ↦ ground (arith, own u refl, e)
    | inr (h, e) ↦ ground (arith, own u refl, e)
  ]

  -- After a logout no refresh token opens a session for the user, in any state that still holds the
  -- user's row as the logout left it.
  pub logout_revokes :
      (id : ℕ) (rt : Text) (s t : S)
      → db.user_find_by_id id t ≡ db.user_find_by_id id (logout db env id s).1
      → refresh_tokens db env id rt t ≡ (thrown access_denied, t)
  unfolding logout refresh_tokens find_by_id delete_rt
  logout_revokes id rt s t same = rw (
    same,
    laws.find_by_id-update_many id (λ u. u.id == id && is_some u.hashed_rt) (set_hashed_rt none) s,
    cleared id (db.user_find_by_id id s) (laws.find_by_id_lem id s) t,
  )

  -- Signing leaves the state.
  pub get_tokens-state :
      (u : User) (s t : S) (tokens : Tokens)
      → get_tokens db env u.id u.email (some u.role) s ≡ (done tokens, t)
      → s ≡ t
  unfolding get_tokens
  get_tokens-state u s t tokens h = (asks-eq-done h).1

  -- What `open_session` stores: a hash of the new refresh token, and nothing else of the row.
  pub open_session_stores :
      (u : User) (s t : S) (tokens : Tokens)
      → db.user_find_by_id u.id s ≡ some u
      → open_session db env u s ≡ (done tokens, t)
      → db.user_find_by_id u.id t
        ≡ some (apply (set_hashed_rt (some (env.hash tokens.refresh_token s))) u)
  unfolding open_session update_rt_hash Repository.update_rt_hash
  open_session_stores u s t tokens row h =
      let (made, s1, signed, h1) =
        continue-eq-done (get_tokens db env u.id u.email (some u.role) s) _ h in
      let (v, s2, stored, h2) =
        continue-eq-done (update_rt_hash db env u.id made.refresh_token s1) _ h1 in
      rw (sym (pure-eq-done h2).1, sym (pure-eq-done h2).0, get_tokens-state u s s1 made signed)
        (rw (
          laws.find_by_id-update u.id u.id (set_hashed_rt (some (env.hash made.refresh_token s1)))
              s1 s2 v stored,
          sym (get_tokens-state u s s1 made signed),
          row,
          laws.find_by_id_lem u.id s u row,
        ))

  pub truthy-eq-some : (o : Option Text) {h : Text} → truthy o ≡ some h → o ≡ some h
  truthy-eq-some none e = e
  truthy-eq-some (some []) e = cc
  truthy-eq-some (some (c ∷ cs)) e = e

  session_hash-eq-done :
      (o : Option User) {u : User} {h : Text} {s t : S}
      → session_hash db env o s ≡ (done (u, h), t)
      → (o ≡ some u) × (u.hashed_rt ≡ some h) × (s ≡ t)
  unfolding session_hash
  session_hash-eq-done none e = cc
  session_hash-eq-done (some v) e =
      let (h, s1, found, e1) =
        continue-eq-done (present (truthy v.hashed_rt) access_denied _) _ e in
      let pair = (pure-eq-done e1).0 in
      let (stored, same) = present-eq-done (truthy v.hashed_rt) access_denied found in
      (
        ap (λ x. some x.0) pair,
        ap (λ x. x.0.hashed_rt) (sym pair)
            ∙ truthy-eq-some v.hashed_rt stored
            ∙ ap (λ x. some x.1) pair,
        same ∙ (pure-eq-done e1).1,
      )

  -- A refresh that returns was given the token whose hash is in the user's row, and opens a session.
  refresh_sound :
      (id : ℕ) (rt : Text) (s t : S) (tokens : Tokens)
      → refresh_tokens db env id rt s ≡ (done tokens, t)
      → (u : User) × (h : Text) × (db.user_find_by_id id s ≡ some u)
        × (u.hashed_rt ≡ some h)
        × (env.verify (some h) rt ≡ done true)
        × (open_session db env u s ≡ (done tokens, t))
  unfolding refresh_tokens find_by_id
  refresh_sound id rt s t tokens e =
      let ((u, h), s1, found, e1) =
        continue-eq-done (session_hash db env (db.user_find_by_id id s) s) _ e in
      let (row, stored, same) = session_hash-eq-done (db.user_find_by_id id s) found in
      let (test, s2, verified, e2) = continue-eq-done (lift (env.verify (some h) rt) s1) _ e1 in
      let (x, s3, checked, e3) = continue-eq-done (check test access_denied s2) _ e2 in
      let (accepted, same') = check-eq-done test access_denied checked in
      let (answer, same'') = asks-eq-done verified in
      (
        u,
        h,
        row,
        stored,
        answer ∙ ap done accepted,
        ap (open_session db env u) (same ∙ same'' ∙ same') ∙ e3,
      )

  -- Refreshing a session rotates its token: after a refresh that returned, and in every state that
  -- holds the user's row as that refresh left it, only the new refresh token opens a session.
  pub refresh_rotates :
      (sound : Sound env) (id : ℕ) (rt rt' : Text) (s t s' t' : S) (tokens tokens' : Tokens)
      → refresh_tokens db env id rt s ≡ (done tokens, t)
      → db.user_find_by_id id s' ≡ db.user_find_by_id id t
      → refresh_tokens db env id rt' s' ≡ (done tokens', t')
      → rt' ≡ tokens.refresh_token
  refresh_rotates sound id rt rt' s t s' t' tokens tokens' first same second =
      let (u, h, row, stored, answer, opened) = refresh_sound id rt s t tokens first in
      let (u', h', row', stored', answer', opened') = refresh_sound id rt' s' t' tokens' second in
      let own : u.id ≡ id = (==_iff u.id id).0 (laws.find_by_id_lem id s u row) in
      let after =
        open_session_stores u s t tokens (ap (λ i. db.user_find_by_id i s) own ∙ row) opened in
      let rows = sym row' ∙ same ∙ ap (λ i. db.user_find_by_id i t) (sym own) ∙ after in
      sound.verify_sound tokens.refresh_token rt' s
        (ap (λ o. env.verify o rt') (sym (ap hashed_rt_of rows) ∙ stored') ∙ answer')
