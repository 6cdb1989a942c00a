-- ===== src/Config/Types.antt =====
-- crates/fwknox-config/src/daemon.rs and shared.rs: the sections of `fwknoxd.toml` as the daemon
-- holds them, with their defaults. A `Duration` is its number of nanoseconds, a `PathBuf` the list
-- of its components. `IpNet` is of the crate `ipnet`, and its `contains` a parameter.
use fwknox.Base.{
  ℕ, ◌*◌, ◌/◌, ◌==◌, Bool, true, false, Option, List, [], ◌∷◌, String, all, nat_eq, replicate,
}
use fwknox.Proto.Types.{Bytes, IpAddr, v4, PortProto, ip_eq}

abbrev pub Duration : Type 0
Duration = ℕ

abbrev pub from_secs : ℕ → Duration
from_secs n = n * 1_000_000_000

abbrev pub as_secs : Duration → ℕ
as_secs d = d / 1_000_000_000

pub data Component : Type 0 where
  root_dir cur_dir parent_dir : Component
  normal : String → Component

abbrev pub FilePath : Type 0
FilePath = List Component

pub record IpNet : Type 0 where
  pub addr : IpAddr
  pub prefix_len : ℕ

pub data SourceSpec : Type 0 where
  any_source : SourceSpec
  cidr : IpNet → SourceSpec
  single : IpAddr → SourceSpec

-- `SourceSpec::matches`; `contains` is `IpNet::contains`.
unfoldable pub matches : (contains : IpNet → IpAddr → Bool) → SourceSpec → IpAddr → Bool
matches contains any_source ip = true
matches contains (cidr net) ip = contains net ip
matches contains (single addr) ip = addr == ip

-- `Base64Key`, by its 32 bytes.
abbrev pub is_all_zero : Bytes → Bool
is_all_zero = all (λ b. b == 0)

pub data FirewallKind : Type 0 where
  nftables iptables : FirewallKind

pub record DaemonSection : Type 0 where
  pub listen_addr : IpAddr
  pub listen_port : ℕ
  pub firewall_backend : FirewallKind
  pub run_user : String
  pub run_group : String
  pub max_spa_packet_age : Duration
  pub flush_rules_at_init : Bool
  pub flush_rules_at_exit : Bool
  pub default_fw_timeout : Duration
  pub max_fw_timeout : Duration
  pub enable_systemd : Bool
  pub enable_sandbox : Bool
  pub enable_privsep : Bool
  pub landlock_enabled : Bool

pub record ReplaySection : Type 0 where
  pub cache_path : FilePath
  pub max_age : Duration
  pub max_entries : ℕ

pub record RateLimitSection : Type 0 where
  pub enabled : Bool
  pub per_source_rate_per_sec : ℕ
  pub per_source_burst : ℕ
  pub tracked_sources_capacity : ℕ
  pub global_rate_per_sec : ℕ
  pub global_burst : ℕ
  pub promotion_threshold : ℕ
  pub ipv6_prefix_len : ℕ

pub record AccessStanza : Type 0 where
  pub name : String
  pub source : List SourceSpec
  pub open_ports : List PortProto
  pub master_key : Bytes
  pub fw_timeout : Option Duration
  pub max_fw_timeout : Option Duration
  pub require_source_match : Bool
  pub require_username : Option String
  pub enable_nat : Bool
  pub nat_destination : Option String
  pub enable_cmd_exec : Bool
  pub cmd_exec_user : Option String
  pub expiration_date : Option String

pub record DaemonConfig : Type 0 where
  pub daemon : DaemonSection
  pub replay : ReplaySection
  pub rate_limit : RateLimitSection
  pub access : List AccessStanza

-- `DaemonSection::default()`
abbrev pub default_daemon : DaemonSection
default_daemon = record {
  listen_addr = v4 (replicate 4 0);
  listen_port = 62201;
  firewall_backend = nftables;
  run_user = "fwknox";
  run_group = "fwknox";
  max_spa_packet_age = from_secs 120;
  flush_rules_at_init = true;
  flush_rules_at_exit = true;
  default_fw_timeout = from_secs 30;
  max_fw_timeout = from_secs 300;
  enable_systemd = true;
  enable_sandbox = true;
  enable_privsep = true;
  landlock_enabled = false;
}

-- `ReplaySection::default()`
abbrev pub default_replay : ReplaySection
default_replay = record {
  cache_path =
      root_dir ∷ normal "var" ∷ normal "lib" ∷ normal "fwknox" ∷ normal "replay.cache" ∷ [];
  max_age = from_secs 86_400;
  max_entries = 10_000;
}

-- `RateLimitSection::default()`
abbrev pub default_rate_limit : RateLimitSection
default_rate_limit = record {
  enabled = true;
  per_source_rate_per_sec = 10;
  per_source_burst = 20;
  tracked_sources_capacity = 1024;
  global_rate_per_sec = 500;
  global_burst = 1000;
  promotion_threshold = 5;
  ipv6_prefix_len = 64;
}
