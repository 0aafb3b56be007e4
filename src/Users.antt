-- ===== src/Users.antt =====
-- src/users: the users, their accounts and their reset tokens.
pub mod Ids
pub mod Types
pub mod Prisma
pub mod Repository
pub mod Service
pub mod Profile
