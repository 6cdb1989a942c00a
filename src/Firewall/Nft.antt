-- ===== src/Firewall/Nft.antt =====
-- crates/fwknox-firewall/src/nftables.rs: the backend that has `nft` keep the rules.
pub mod Objects
pub mod Backend
pub mod Handle
pub mod Ruleset
pub mod Batches
pub mod Reports
pub mod Removal
pub mod Present
pub mod AllowSet
mod Sample
mod Tests
