-- ===== src/Auth/Nonces.antt =====
-- Theorems on `generateNonce` and `verifyWallet` of auth.service.ts.
pub mod Single
pub mod Latest
pub mod Failure
