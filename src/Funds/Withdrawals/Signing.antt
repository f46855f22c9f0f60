-- ===== src/Funds/Withdrawals/Signing.antt =====
-- The nonces of withdrawals (withdrawals.service.ts) across whole histories.
pub mod Requests
pub mod Run
pub mod Once
pub mod Overlap
