-- ===== src/Auth/Passwords.antt =====
-- `changePassword` of src/auth/auth.service.ts.
use judge_it.Prelude.Text.{Text}
use judge_it.Auth.Crypto.{Crypto}
use judge_it.Users.Prisma.{Prisma}
use judge_it.Users.Repository as Repository
