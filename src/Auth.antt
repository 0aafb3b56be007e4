-- ===== src/Auth.antt =====
-- src/auth and src/common/guards: who is let in, and what each session and token allows.
pub mod Roles
pub mod Crypto
pub mod Service
pub mod Oauth
pub mod Sessions
pub mod Resets
pub mod Mailed
pub mod Registered
pub mod Recovered
pub mod Access
pub mod Passwords
pub mod Guards
pub mod Admission
pub mod Admitted
pub mod Refresh
pub mod Controller
pub mod Google
pub mod Logins
