-- ===== src/Workers.antt =====
-- The three processes: the capture and crypto workers of crates/fwknox-privsep/src/workers.rs, their
-- messages (ipc.rs), their end (fork.rs), and the parent (crates/fwknox-daemon/src/privsep_run.rs).
pub mod Ipc
pub mod Capture
pub mod Crypto
pub mod Parent
pub mod Chain
pub mod Child
pub mod Contained
pub mod FailClosed
pub mod Once
pub mod Fork
pub mod Reaped
pub mod Sample
mod Tests
mod ChildTests
mod OnceTests
mod ReapedTests
