-- ===== src/Mobile/Store.antt =====
-- store/store.ts: the state of the application, and what signs in and out, changes settings and
-- restores them at launch. `F` is the type of JavaScript's numbers.
pub mod Data
pub mod Settings
pub mod Calls
pub mod Restart
pub mod SignedOut
