-- ===== src/Proto.antt =====
-- crates/fwknox-proto: the SPA wire format, from the value types up to whole packets.
pub mod Types
pub mod Header
pub mod Crypto
pub mod Payload
pub mod Packet
pub mod Freshness
pub mod Display
pub mod Sample
mod Tests
