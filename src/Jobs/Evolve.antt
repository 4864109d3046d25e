-- ===== src/Jobs/Evolve.antt =====
-- How the calls of the job store move the jobs: which rows come after which.
pub mod Table
pub mod Rows
pub mod Elem
pub mod QueueCalls
pub mod CleanupCalls
pub mod Interrupted
pub mod Recovery
pub mod History
