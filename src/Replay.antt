-- ===== src/Replay.antt =====
-- crates/fwknox-replay: the bounded cache of seen nonces, its file and its text form.
pub mod Cache
pub mod Check
pub mod Window
pub mod Prune
pub mod Hex
pub mod File
pub mod Written
pub mod Kept
pub mod Held
mod Tests
