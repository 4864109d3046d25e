-- ===== src/Config.antt =====
-- The settings of the service, and their checks (internal/config/config.go). A value is its code points, so
-- `utf8.ValidString` is true of each.
pub mod Values
pub mod Outside
pub mod Parse
pub mod Rules
pub mod Sound
mod Tests
