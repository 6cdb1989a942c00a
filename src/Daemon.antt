-- ===== src/Daemon.antt =====
-- crates/fwknox-daemon: from a captured datagram to a firewall rule, in one process and in three.
pub mod Host
pub mod Match
pub mod Owner
pub mod Pipeline
pub mod Policy
pub mod Steps
pub mod Served
pub mod Privsep
pub mod Serve
pub mod Run
pub mod Loop
pub mod Keeps
pub mod Guarded
pub mod Boot
pub mod Ready
pub mod Deployed
pub mod Sample
mod Tests
mod Scenarios
mod BootTests
mod DeployedTests
pub mod Relay
pub mod Again
pub mod Fresh
