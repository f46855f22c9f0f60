-- ===== src/Auth/Rotation.antt =====
-- Theorems on `refreshTokens` and `handleRefreshReuse` of auth.service.ts across whole histories.
pub mod Single
pub mod Reuse
