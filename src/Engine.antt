-- ===== src/Engine.antt =====
-- The adapter of the decryption library (internal/engine).
pub mod Library
pub mod Transport
pub mod Adapter
pub mod Cleanup
pub mod Confirmed
pub mod Decrypted
pub mod Told
mod Tests
