-- ===== src/Jobs.antt =====
-- The durable job queue (internal/jobs): its rows, its transactions and what they keep.
pub mod Model
pub mod Tx
pub mod Rows
pub mod Queue
pub mod Cleanup
pub mod NewId
pub mod Listing
pub mod Journal
pub mod Calls
pub mod Atomic
pub mod Evolve
pub mod Rules
pub mod Review
pub mod Claim
pub mod Offered
pub mod Admission
pub mod Cancellation
pub mod Startup
pub mod Resolution
pub mod Trace
mod Tests
mod ViewTests
