-- ===== src/Tests/Database.antt =====
-- A database of one user, one account and one reset token, and a hash that is the text itself.
use judge_it.Prelude.{
  ℕ, ◌≡◌, ◌∙◌, ap, sym, refl, [], Bool, true, false, Option, none, some, arith, if◌then◌else◌, ◌==◌,
}
use judge_it.Prelude.Eq.{text_beq, text_beq_iff}
use judge_it.Prelude.Actions.{pure-eq-done}
use judge_it.Prelude.Results.{Result, done, thrown}
use judge_it.Prelude.Text.{Text, text}
use judge_it.Auth.Crypto.{Crypto, Sound}
use judge_it.Users.Prisma.{Prisma, Laws, patch_if}
use judge_it.Users.Types.{
  User, NewUser, Patch, set_hash, set_hashed_rt, apply, Account, ResetToken, Error, failure,
}

pub record Row : Type 0 where
  pub u : User
  pub account : Account
  pub token : ResetToken

abbrev lost : Error
lost = failure (text "lost")

abbrev made : NewUser → User
made new = record {
  id = 1;
  email = new.email;
  hash = new.hash;
  hashed_rt = none;
  role = [];
  username = new.username;
}

abbrev pub one : Prisma Row
one = record {
  user_create = λ new accounts s. (done (made new), record s { u = made new });
  user_find_by_email = λ email s. if text_beq s.u.email email then some s.u else none;
  user_find_by_id = λ id s. if s.u.id == id then some s.u else none;
  user_delete = λ id s. (thrown lost, s);
  user_update = λ id p s.
      if s.u.id == id then (done (apply p s.u), record s { u = apply p s.u }) else (thrown lost, s);
  user_update_many = λ test p s. if test s.u then record s { u = apply p s.u } else s;
  accounts_of = λ id s. [];
  account_find = λ provider id s. none;
  account_create = λ id new s. (done s.account, s);
  account_update = λ id tokens s. (done s.account, s);
  token_create = λ id hash expires_at s. (
    done tt,
    record s {
      token = record {
        id = 4;
        user_id = id;
        token_hash = hash;
        expires_at = expires_at;
        used = false;
      };
    },
  );
  token_find = λ hash s. if text_beq s.token.token_hash hash then some s.token else none;
  token_mark_used = λ id s.
      if s.token.id == id
      then (done tt, record s { token = record s.token { used = true } })
      else (thrown lost, s);
}

find_by_email_law :
    (email : Text) (id : ℕ) (p : Patch) (s t : Row) (v : User)
    → one.user_update id p s ≡ (done v, t)
    → one.user_find_by_email email t ≡ patch_if (λ u. u.id == id) p (one.user_find_by_email email s)
find_by_email_law email id (set_hash h) s t v e = ground (arith, e)
find_by_email_law email id (set_hashed_rt h) s t v e = ground (arith, e)

find_by_id_law :
    (i id : ℕ) (p : Patch) (s t : Row) (v : User)
    → one.user_update id p s ≡ (done v, t)
    → one.user_find_by_id i t ≡ patch_if (λ u. u.id == id) p (one.user_find_by_id i s)
find_by_id_law i id (set_hash h) s t v e = ground (arith, e)
find_by_id_law i id (set_hashed_rt h) s t v e = ground (arith, e)

find_by_id_many_law :
    (i : ℕ) (test : User → Bool) (p : Patch) (s : Row)
    → one.user_find_by_id i (one.user_update_many test p s)
      ≡ patch_if test p (one.user_find_by_id i s)
find_by_id_many_law i test (set_hash h) s = ground arith
find_by_id_many_law i test (set_hashed_rt h) s = ground arith

made_law :
    (new : NewUser) (s t : Row) (u : User)
    → one.user_create new [] s ≡ (done u, t)
    → (one.user_find_by_email new.email t ≡ some u) × (u.hash ≡ new.hash)
made_law new s t u h =
    let it = (pure-eq-done h).0 in
    (
      ap (λ x. one.user_find_by_email new.email x) (sym (pure-eq-done h).1)
          ∙ rw ((text_beq_iff new.email new.email).1 refl) (ap some it),
      ap (λ x. x.hash) (sym it),
    )

created_law :
    (hash : Text) (user_id expires_at : ℕ) (s t : Row) (v : Unit {0})
    → one.token_create user_id hash expires_at s ≡ (done v, t)
    → (row : ResetToken) × (one.token_find hash t ≡ some row)
      × (row.user_id ≡ user_id)
      × (row.expires_at ≡ expires_at)
      × (row.used ≡ false)
created_law hash user_id expires_at s t v h =
    let it : ResetToken = record {
      id = 4;
      user_id = user_id;
      token_hash = hash;
      expires_at = expires_at;
      used = false;
    } in
    (
      it,
      ap (λ x. one.token_find hash x.1) (sym h) ∙ rw ((text_beq_iff hash hash).1 refl) refl,
      refl,
      refl,
      refl,
    )

pub one-Laws : Laws one
one-Laws = record {
  find_by_email-id = λ email s u h. ground (arith, h);
  find_by_email-update = find_by_email_law;
  find_by_id-update = find_by_id_law;
  find_by_id-update_many = find_by_id_many_law;
  find_by_id_lem = λ id s u h. ground (arith, h);
  token_find-update = λ hash id p s t v h. ground (arith, h);
  token_find-mark_used = λ hash id s t v h. ground (arith, h);
  find_by_id-mark_used = λ i id s t v h. ground (arith, h);
  find_by_email-mark_used = λ email id s t v h. ground (arith, h);
  token_find-create = created_law;
  find_by_email-create = λ new accounts s t u h. made_law new s t u h;
}

abbrev verify_plain : Option Text → Text → Result Error Bool
verify_plain none y = thrown lost
verify_plain (some h) y = done (text_beq h y)

abbrev pub plain : Crypto Row
plain = record {
  hash = λ x s. x;
  verify = verify_plain;
  sign = λ payload secret s. done (text "new");
  sha256 = λ x. x;
  random_bytes = λ s. text "token";
  now = λ s. 100;
  get_id = λ n s. text "abcd";
  host = done (text "localhost");
  send_mail = λ mail s. (done tt, s);
}

abbrev answered : Bool → Result Error Bool
answered b = done b

of_done : {b : Bool} → answered b ≡ answered true → b ≡ true
of_done {b} h = cc

pub plain-Sound : Sound plain
plain-Sound = record {
  verify-hash = λ x s. ap done ((text_beq_iff x x).1 refl);
  verify_sound = λ x y s h. sym ((text_beq_iff x y).0 (of_done h));
}

abbrev pub row : Row
row = record {
  u = record {
    id = 1;
    email = text "a@b.c";
    hash = some (text "secret");
    hashed_rt = some (text "old");
    role = [];
    username = text "a";
  };
  account = record {
    id = 5;
    user_id = 1;
    details = record {
      provider = text "google";
      provider_account_id = text "g";
      tokens = record { access_token = []; refresh_token = []; expires_at = 0 };
      token_type = [];
      scope = [];
    };
  };
  token = record { id = 3; user_id = 1; token_hash = text "t"; expires_at = 200; used = false };
}
