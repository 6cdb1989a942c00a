-- ===== src/Client.antt =====
-- crates/fwknox-client: from the command line to one SPA packet.
pub mod Packet
pub mod Main
pub mod Built
pub mod Ports
pub mod Admitted
mod Tests
