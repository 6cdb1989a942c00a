-- ===== src/RateLimit.antt =====
-- crates/fwknox-ratelimit: token buckets for known sources and one for the rest.
pub mod Key
pub mod Bucket
pub mod Limiter
pub mod Counts
pub mod Burst
pub mod Snapshot
pub mod Sample
mod Tests
