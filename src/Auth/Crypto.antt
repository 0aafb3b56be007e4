-- ===== src/Auth/Crypto.antt =====
-- The libraries that src/auth/auth.service.ts calls: argon2, the signer of tokens, the hash of reset
-- tokens, randomness, the clock, the configuration and the mail service. What a call gives may
-- depend on the state, which stands for the salt, the time and the randomness of the call.
use judge_it.Prelude.{ℕ, ◌≡◌, Bool, true, List, Option, some}
use judge_it.Prelude.Actions.{Action}
use judge_it.Prelude.Results.{Result, done}
use judge_it.Prelude.Text.{Text}
use judge_it.Auth.Roles.{Role}
use judge_it.Users.Types.{Error}

-- The keys of the configuration that a token is signed with.
pub data Secret : Type 0 where
  access_token_secret refresh_token_secret : Secret

pub record Payload : Type 0 where
  pub sub : ℕ
  pub email : Text
  -- `undefined` for a caller that has none
  pub roles : Option (List Role)

pub record Mail : Type 0 where
  pub to : Text
  pub subject : Text
  pub template_name : Text
  pub username : Text
  pub reset_link : Text

pub record Crypto (S : Type 0) : Type 0 where
  pub hash : Text → S → Text
  -- A missing hash is refused by the library in its own way.
  pub verify : Option Text → Text → Result Error Bool
  pub sign : Payload → Secret → S → Result Error Text
  pub sha256 : Text → Text
  pub random_bytes : S → Text
  pub now : S → ℕ
  pub get_id : ℕ → S → Text
  pub host : Result Error Text
  pub send_mail : Mail → Action S Error (Unit {0})

-- A password is accepted for a hash of itself, and for no hash of another one.
pub record Sound {S : Type 0} (env : Crypto S) : Type 0 where
  pub verify-hash : (x : Text) (s : S) → env.verify (some (env.hash x s)) x ≡ done true
  pub verify_sound : (x y : Text) (s : S) → env.verify (some (env.hash x s)) y ≡ done true → y ≡ x
