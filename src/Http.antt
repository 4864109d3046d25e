-- ===== src/Http.antt =====
-- What the web interface accepts, and what it does for a request (internal/httpapi).
pub mod Target
pub mod Message
pub mod Guard
pub mod Service
pub mod Web
pub mod Name
pub mod Handlers
pub mod Upload
pub mod Server
pub mod Acts
pub mod Shows
pub mod Contract
mod Tests
mod RequestTests
