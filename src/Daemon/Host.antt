-- ===== src/Daemon/Host.antt =====
-- What the daemon runs on: its parameters, its state, and what it reads from the system while it
-- handles one packet.
use fwknox.Base.{ℕ, ◌%◌, Bool, ltb, if◌then◌else◌, String, nat_eq, list_eq}
use fwknox.Base.Int.{ℤ, pos, of_bits, i64_half, i64_mod}
use fwknox.Base.Lru.{Lru}
use fwknox.Proto.Types.{Bytes, IpAddr, PortProto, ProtoError}
use fwknox.Proto.Crypto.{Crypto}
use fwknox.Config.Types.{IpNet}
use fwknox.Replay.Cache.{Nonce, ReplayError, WriteCalls, Store}
use fwknox.Firewall.Backend.{FirewallBackend}

-- The crates `ring` and `rmp-serde`, `IpNet::contains`, the crate `lru`, and a firewall backend.
pub record Host : Type 1 where
  pub crypto : Crypto
  pub contains : IpNet → IpAddr → Bool
  pub lru : Lru Nonce ℕ
  pub firewall : FirewallBackend

-- The daemon's mutable state: the replay cache with its file, and the firewall.
pub record State (host : Host) : Type 0 where
  pub replay : Store host.lru
  pub rules : host.firewall.State

-- While one packet is handled: the seconds since the epoch that `now_unix` and the replay cache
-- read, 0 for a clock before it, and the outcome of the calls that write the cache file.
pub record Moment : Type 0 where
  pub unix : ℕ
  pub replay_now : ℕ
  pub writes : WriteCalls

-- `CapturedPacket`
pub record CapturedPacket : Type 0 where
  pub source_ip : IpAddr
  pub datagram : Bytes

-- The reasons for a rejection; the source formats each to text.
pub data Reason : Type 0 where
  protocol : ProtoError → Reason
  persist_failed : ReplayError → Reason
  unsupported_message : Reason
  source_mismatch : (payload packet : IpAddr) → Reason
  source_not_allowed : IpAddr → Reason
  port_not_open : PortProto → Reason
  lookup_failed : (stanza_name : String) → Reason

-- `now_unix`: a `u64` cast to `i64`.
unfoldable pub now_unix : ℕ → ℤ
now_unix secs = of_bits (secs % i64_mod)

-- `i64::try_from(secs).unwrap_or(i64::MAX)`
unfoldable pub age_limit : ℕ → ℤ
age_limit secs = if ltb secs i64_half then pos secs else pos 0x7fff_ffff_ffff_ffff
