-- ===== src/Solvency.antt =====
-- Whether a user may withdraw: veilend-backend/src/common/utils/health-factor.util.ts and
-- veilend-backend/src/withdrawals/withdrawal-solvency.service.ts.
pub mod HealthFactor
pub mod Withdrawable
mod Tests
