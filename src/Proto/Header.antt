-- ===== src/Proto/Header.antt =====
-- crates/fwknox-proto/src/header.rs: the four bytes version | flags | length, big endian.
-- A `u8` or `u16` is its number.
mod Wire
pub mod Laws
unfoldable pub use Wire.*
