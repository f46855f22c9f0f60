-- ===== src/Stellar.antt =====
-- The calls of Horizon and of the Soroban RPC: veilend-backend/src/stellar.
pub mod Breaker
pub mod Tests
