-- ===== src/Config/Valid.antt =====
-- What a configuration must be, stated apart from the code, and that `validate` decides it.
use fwknox.Base.{
  ◌≡◌, ◌≢◌, ◌≤◌, ◌<◌, ◌↔◌, refl, true, false, none, List, [], ◌∷◌, String, arith, any, ◌==◌,
  string_eq, ok,
}
use fwknox.Config.Types.{Duration, is_all_zero, RateLimitSection, AccessStanza, DaemonConfig}
use fwknox.Config.Validate.{
  validate_stanza, validate_stanzas, max_duration, validate_duration, validate_durations,
  is_absolute, is_parent_dir, validate_replay_cache_path, validate_rate_limit, validate,
}

pub record IsUsable (s : AccessStanza) : Type 0 where
  pub ports : s.open_ports ≢ []
  pub key : is_all_zero s.master_key ≡ false
  pub no_expiration : s.expiration_date ≡ none
  pub no_nat : s.enable_nat ≡ false
  pub no_cmd_exec : s.enable_cmd_exec ≡ false

-- No stanza repeats a name among `seen` or one before it.
abbrev pub AreUsable : List String → List AccessStanza → Type 0
AreUsable seen [] = Unit
AreUsable seen (s ∷ rest) =
    (any (λ n. n == s.name) seen ≡ false) × IsUsable s × AreUsable (s.name ∷ seen) rest

abbrev pub IsBounded : Duration → Type 0
IsBounded d = (0 < d) × (d ≤ max_duration)

pub record IsRate (r : RateLimitSection) : Type 0 where
  pub per_source : 1 ≤ r.per_source_rate_per_sec
  pub global : 1 ≤ r.global_rate_per_sec
  pub per_source_burst : r.per_source_rate_per_sec ≤ r.per_source_burst
  pub global_burst : r.global_rate_per_sec ≤ r.global_burst
  pub capacity : 1 ≤ r.tracked_sources_capacity
  pub threshold : 1 ≤ r.promotion_threshold
  pub prefix_pos : 1 ≤ r.ipv6_prefix_len
  pub prefix_le : r.ipv6_prefix_len ≤ 128

pub record IsValid (c : DaemonConfig) : Type 0 where
  pub some_access : c.access ≢ []
  pub stanzas : AreUsable [] c.access
  pub default_fw_timeout : IsBounded c.daemon.default_fw_timeout
  pub max_fw_timeout : IsBounded c.daemon.max_fw_timeout
  pub max_spa_packet_age : IsBounded c.daemon.max_spa_packet_age
  pub max_age : IsBounded c.replay.max_age
  pub timeouts : c.daemon.default_fw_timeout ≤ c.daemon.max_fw_timeout
  pub absolute : is_absolute c.replay.cache_path ≡ true
  pub no_parent_dir : any is_parent_dir c.replay.cache_path ≡ false
  pub rate_limit : c.rate_limit.enabled ≡ true → IsRate c.rate_limit

validate_stanza-IsUsable : (s : AccessStanza) → (validate_stanza s ≡ ok tt) ↔ IsUsable s
unfolding validate_stanza
validate_stanza-IsUsable s = (λ h. ground arith, λ u. ground arith)

validate_stanzas-AreUsable :
    (seen : List String) (ss : List AccessStanza)
    → (validate_stanzas seen ss ≡ ok tt) ↔ AreUsable seen ss
unfolding validate_stanzas
validate_stanzas-AreUsable seen [] = (λ h. tt, λ u. refl)
validate_stanzas-AreUsable seen (s ∷ rest) =
    ground (arith, validate_stanza-IsUsable s, validate_stanzas-AreUsable (s.name ∷ seen) rest)

validate_rate_limit-IsRate : (r : RateLimitSection) → (validate_rate_limit r ≡ ok tt) ↔ IsRate r
unfolding validate_rate_limit
validate_rate_limit-IsRate r = (λ h. ground arith, λ u. ground arith)

validate_duration-IsBounded :
    (name : String) (d : Duration) → (validate_duration name d ≡ ok tt) ↔ IsBounded d
unfolding validate_duration
validate_duration-IsBounded name d = (λ h. ground arith, λ b. ground arith)

validate_durations-IsBounded :
    (c : DaemonConfig)
    → (validate_durations c ≡ ok tt) ↔ (
        IsBounded c.daemon.default_fw_timeout
        × IsBounded c.daemon.max_fw_timeout
        × IsBounded c.daemon.max_spa_packet_age
        × IsBounded c.replay.max_age)
unfolding validate_durations
validate_durations-IsBounded c = (λ h. ground arith, λ b. ground arith)

validate_replay_cache_path-safe :
    (c : DaemonConfig)
    → (validate_replay_cache_path c ≡ ok tt)
      ↔ ((is_absolute c.replay.cache_path ≡ true) × (any is_parent_dir c.replay.cache_path ≡ false))
unfolding validate_replay_cache_path
validate_replay_cache_path-safe c = (λ h. ground arith, λ b. ground arith)

module _ (c : DaemonConfig) where
  -- `validate` accepts exactly the valid configurations: it finds every fault of the list, and
  -- refuses nothing else.
  pub validate-IsValid : (validate c ≡ ok tt) ↔ IsValid c
  unfolding validate
  validate-IsValid = (
    λ h. record {
      some_access = ground arith;
      stanzas = ground (arith, stanzas);
      default_fw_timeout = ground (arith, durations);
      max_fw_timeout = ground (arith, durations);
      max_spa_packet_age = ground (arith, durations);
      max_age = ground (arith, durations);
      timeouts = ground arith;
      absolute = ground (arith, path);
      no_parent_dir = ground (arith, path);
      rate_limit = λ e. ground (arith, rate);
    },
    λ v. ground (arith, stanzas, durations, path, rate, v.rate_limit),
  )
    where
      stanzas : (validate_stanzas [] c.access ≡ ok tt) ↔ AreUsable [] c.access
      stanzas = validate_stanzas-AreUsable [] c.access

      durations : (validate_durations c ≡ ok tt) ↔ (
          IsBounded c.daemon.default_fw_timeout
          × IsBounded c.daemon.max_fw_timeout
          × IsBounded c.daemon.max_spa_packet_age
          × IsBounded c.replay.max_age)
      durations = validate_durations-IsBounded c

      path : (validate_replay_cache_path c ≡ ok tt) ↔ (
          (is_absolute c.replay.cache_path ≡ true)
          × (any is_parent_dir c.replay.cache_path ≡ false))
      path = validate_replay_cache_path-safe c

      rate : (validate_rate_limit c.rate_limit ≡ ok tt) ↔ IsRate c.rate_limit
      rate = validate_rate_limit-IsRate c.rate_limit
