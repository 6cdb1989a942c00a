-- ===== src/Firewall.antt =====
-- crates/fwknox-firewall: the rules, the interface of a backend, and the backend in memory.
pub mod Backend
pub mod Mock
pub mod Nft
mod Tests
