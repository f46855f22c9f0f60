-- ===== src/Funds.antt =====
-- Deposits and withdrawals: veilend-backend/src/deposits and veilend-backend/src/withdrawals.
pub mod Data
pub mod Deposits
pub mod Withdrawals
pub mod Tests
