-- ===== src/Auth/Roles.antt =====
-- The roles of prisma/schema.prisma.
pub data Role : Type 0 where
  user admin moderator : Role
