-- ===== src/Admin.antt =====
-- Admins and what they have the contract do: veilend-backend/src/admin.
pub mod Data
pub mod Actions
pub mod Members
pub mod History
mod Tests
