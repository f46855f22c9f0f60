-- ===== src/Mobile.antt =====
-- The mobile application, veilend-mobile/src: what it stores on the device and in memory, its
-- lock, and the lending transactions that it shows before they are confirmed.
pub mod Storage
pub mod Store
pub mod Dashboard
pub mod Lending
pub mod Lock
pub mod Pin
pub mod Amount
mod Tests
