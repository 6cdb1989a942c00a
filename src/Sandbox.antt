-- ===== src/Sandbox.antt =====
-- crates/fwknox-sandbox: capabilities.rs, privdrop.rs, landlock.rs, seccomp.rs and apply.rs, over what
-- the kernel and the crates `caps`, `nix`, `landlock` and `seccompiler` give. An error holds the text
-- of the source and the text of the call that failed; logging is left out.
pub mod System
pub mod Steps
pub mod Landlock
pub mod Seccomp
pub mod Unlisted
pub mod Apply
pub mod Linux
pub mod Privileges
pub mod Stranded
pub mod Worker
pub mod Toy
pub mod Tests
