-- ===== src/Worker.antt =====
-- The run of one job, and what the service does with the files and the device before the first
-- (internal/worker).
pub mod World
pub mod Device
pub mod Finish
pub mod Metadata
pub mod Attempts
pub mod Run
pub mod Startup
pub mod Alive
pub mod Traced
pub mod Ended
pub mod Course
pub mod Cleared
mod Tests
pub mod Reconciled
