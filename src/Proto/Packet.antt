-- ===== src/Proto/Packet.antt =====
-- crates/fwknox-proto/src/packet.rs: header | nonce | ciphertext and tag | HMAC.
mod Wire
pub mod Parse
pub mod Build
pub mod RoundTrip
unfoldable pub use Wire.*
