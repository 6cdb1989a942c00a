-- ===== src/Config/Validate.antt =====
-- `DaemonConfig::validate` of crates/fwknox-config/src/daemon.rs. An error keeps what its text
-- says: which check, and the stanza or field that the text names.
use fwknox.Base.{
  ◌*◌, Bool, true, false, not, ◌&&◌, List, [], ◌∷◌, String, ltb, leb, any, is_some, is_none, ◌==◌,
  string_eq, nat_eq, Result, ok, ◌>>◌, fail_if, if◌then◌else◌,
}
use fwknox.Config.Types.{
  Duration, from_secs, Component, root_dir, cur_dir, parent_dir, normal, FilePath, is_all_zero,
  RateLimitSection, AccessStanza, DaemonConfig,
}

-- The texts that `validate` puts into `ConfigError::Invalid`.
pub data ConfigError : Type 0 where
  no_access : ConfigError
  duplicate_name : String → ConfigError
  empty_open_ports : String → ConfigError
  nat_without_destination : String → ConfigError
  all_zero_key : String → ConfigError
  expiration_unsupported : String → ConfigError
  nat_unsupported : String → ConfigError
  cmd_exec_unsupported : String → ConfigError
  zero_duration : String → ConfigError
  long_duration : String → ConfigError
  timeout_order : ConfigError
  path_not_absolute : ConfigError
  path_parent_dir : ConfigError
  per_source_rate : ConfigError
  global_rate : ConfigError
  per_source_burst : ConfigError
  global_burst : ConfigError
  capacity : ConfigError
  threshold : ConfigError
  prefix_len : ConfigError

abbrev pub is_empty : {A : Type 0} → List A → Bool
is_empty [] = true
is_empty (x ∷ xs) = false

unfoldable pub validate_stanza : AccessStanza → Result ConfigError (Unit {0})
validate_stanza s = do
  fail_if (is_empty s.open_ports) (empty_open_ports s.name)
  fail_if (s.enable_nat && is_none s.nat_destination) (nat_without_destination s.name)
  fail_if (is_all_zero s.master_key) (all_zero_key s.name)
  fail_if (is_some s.expiration_date) (expiration_unsupported s.name)
  fail_if s.enable_nat (nat_unsupported s.name)
  fail_if s.enable_cmd_exec (cmd_exec_unsupported s.name)

-- The loop over the stanzas; `seen` is `seen_names`.
unfoldable pub validate_stanzas : List String → List AccessStanza → Result ConfigError (Unit {0})
validate_stanzas seen [] = ok tt
validate_stanzas seen (s ∷ rest) = do
  fail_if (any (λ n. n == s.name) seen) (duplicate_name s.name)
  validate_stanza s
  validate_stanzas (s.name ∷ seen) rest

abbrev pub max_duration : Duration
max_duration = from_secs (86_400 * 7)

unfoldable pub validate_duration : String → Duration → Result ConfigError (Unit {0})
validate_duration name d = do
  fail_if (d == 0) (zero_duration name)
  fail_if (ltb max_duration d) (long_duration name)

unfoldable pub validate_durations : DaemonConfig → Result ConfigError (Unit {0})
unfolding validate_duration
validate_durations c = do
  validate_duration "daemon.default_fw_timeout" c.daemon.default_fw_timeout
  validate_duration "daemon.max_fw_timeout" c.daemon.max_fw_timeout
  validate_duration "daemon.max_spa_packet_age" c.daemon.max_spa_packet_age
  validate_duration "replay.max_age" c.replay.max_age

abbrev pub is_absolute : FilePath → Bool
is_absolute [] = false
is_absolute (root_dir ∷ p) = true
is_absolute (cur_dir ∷ p) = false
is_absolute (parent_dir ∷ p) = false
is_absolute (normal s ∷ p) = false

abbrev pub is_parent_dir : Component → Bool
is_parent_dir root_dir = false
is_parent_dir cur_dir = false
is_parent_dir parent_dir = true
is_parent_dir (normal s) = false

unfoldable pub validate_replay_cache_path : DaemonConfig → Result ConfigError (Unit {0})
validate_replay_cache_path c = do
  fail_if (not (is_absolute c.replay.cache_path)) path_not_absolute
  fail_if (any is_parent_dir c.replay.cache_path) path_parent_dir

-- The block under `if self.rate_limit.enabled`.
unfoldable pub validate_rate_limit : RateLimitSection → Result ConfigError (Unit {0})
validate_rate_limit r = do
  fail_if (ltb r.per_source_rate_per_sec 1) per_source_rate
  fail_if (ltb r.global_rate_per_sec 1) global_rate
  fail_if (ltb r.per_source_burst r.per_source_rate_per_sec) per_source_burst
  fail_if (ltb r.global_burst r.global_rate_per_sec) global_burst
  fail_if (r.tracked_sources_capacity == 0) capacity
  fail_if (r.promotion_threshold == 0) threshold
  fail_if (not (leb 1 r.ipv6_prefix_len && leb r.ipv6_prefix_len 128)) prefix_len

unfoldable pub validate : DaemonConfig → Result ConfigError (Unit {0})
validate c = do
  fail_if (is_empty c.access) no_access
  validate_stanzas [] c.access
  validate_durations c
  fail_if (ltb c.daemon.max_fw_timeout c.daemon.default_fw_timeout) timeout_order
  validate_replay_cache_path c
  if c.rate_limit.enabled then validate_rate_limit c.rate_limit else ok tt
