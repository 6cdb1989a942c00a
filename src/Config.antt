-- ===== src/Config.antt =====
-- crates/fwknox-config: the daemon's configuration and its semantic validation.
pub mod Types
pub mod Validate
pub mod Valid
pub mod Parse
pub mod Client
pub mod Sample
mod Tests
