-- ===== src/Auth.antt =====
-- Login with a wallet, refresh tokens and sessions: veilend-backend/src/auth/auth.service.ts and
-- veilend-backend/src/auth/jwt.strategy.ts, with the tables of
-- veilend-backend/prisma/schema.prisma.
pub mod Data
pub mod Tokens
pub mod Login
pub mod Refresh
pub mod Sessions
pub mod Strategy
pub mod History
pub mod Rotation
pub mod Nonces
pub mod Access
pub mod Tests
