-- ===== src/Indexer.antt =====
-- The event indexer: veilend-backend/src/indexer/indexer.repository.ts and indexer.service.ts.
pub mod EventId
pub mod Data
pub mod Store
pub mod Positions
pub mod Process
pub mod History
pub mod Parse
pub mod Fetch
pub mod Chunks
pub mod Service
mod Tests
