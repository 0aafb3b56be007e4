-- ===== src/Users/Types.antt =====
-- The rows of the tables of prisma/schema.prisma that hold the users, their accounts and their
-- reset tokens, and the exceptions that the services throw.
use judge_it.Prelude.{ℕ, Bool, List, Option, some}
use judge_it.Prelude.Text.{Text}
use judge_it.Auth.Roles.{Role}

pub record User : Type 0 where
  pub id : ℕ
  pub email : Text
  pub hash : Option Text
  pub hashed_rt : Option Text
  pub role : List Role
  pub username : Text

-- The columns that `create` is given.
pub record NewUser : Type 0 where
  pub email : Text
  pub username : Text
  pub hash : Option Text

-- The `data` of an `update` of a user.
pub data Patch : Type 0 where
  set_hash : Text → Patch
  set_hashed_rt : Option Text → Patch

abbrev pub apply : Patch → User → User
apply (set_hash h) u = record u { hash = some h }
apply (set_hashed_rt rt) u = record u { hashed_rt = rt }

pub record AccountTokens : Type 0 where
  pub access_token : Text
  pub refresh_token : Text
  pub expires_at : ℕ

pub record NewAccount : Type 0 where
  pub provider : Text
  pub provider_account_id : Text
  pub tokens : AccountTokens
  pub token_type : Text
  pub scope : Text

pub record Account : Type 0 where
  pub id : ℕ
  pub user_id : ℕ
  pub details : NewAccount

pub record ResetToken : Type 0 where
  pub id : ℕ
  pub user_id : ℕ
  pub token_hash : Text
  pub expires_at : ℕ
  pub used : Bool

-- The exceptions of the framework with their messages, and what a library throws.
pub data Error : Type 0 where
  bad_request unauthorized forbidden not_found conflict : Text → Error
  failure : Text → Error
