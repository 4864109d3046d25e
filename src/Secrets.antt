-- ===== src/Secrets.antt =====
-- What the service keeps secret (internal/secrets).
pub mod Broker
pub mod Session
mod Tests
