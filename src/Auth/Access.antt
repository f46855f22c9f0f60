-- ===== src/Auth/Access.antt =====
-- `validate` of jwt.strategy.ts against the handlers of auth.service.ts.
pub mod Login
pub mod Refresh
pub mod Logout
