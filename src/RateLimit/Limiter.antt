-- ===== src/RateLimit/Limiter.antt =====
-- crates/fwknox-ratelimit/src/limiter.rs and stats.rs: the decision on one datagram. The counters
-- are `u64` and wrap; the candidates' map is an association list. `poisoned` says whether a holder
-- of the lock has panicked, the one case in which the state is wiped. Logging shows only in the
-- time of the last warning.
use fwknox.Base.{
  ℕ, suc, ◌-◌, ◌%◌, ◌^◌, Bool, not, Option, none, some, List, [], ◌∷◌, ltb, length, min, ◌==◌,
  if◌then◌else◌,
}
use fwknox.Base.Assoc.{lookup, erase}
use fwknox.Base.Lru.{Lru}
use fwknox.Proto.Types.{IpAddr}
use fwknox.Config.Types.{Duration, from_secs, RateLimitSection}
use fwknox.RateLimit.Key.{SourceKey, key_eq, from_ip}
use fwknox.RateLimit.Bucket.{Float, TokenBucket, new_bucket, consume, pass_bucket, drop_bucket}

abbrev pub candidate_ttl : Duration
candidate_ttl = from_secs 60

pub data DropReason : Type 0 where
  per_source_exhausted global_exhausted : DropReason

pub data Decision : Type 0 where
  pass : Decision
  drop : DropReason → Decision

pub record Stats : Type 0 where
  pub allowed : ℕ
  pub dropped_per_source : ℕ
  pub dropped_global : ℕ
  pub promotions : ℕ
  pub evictions : ℕ

-- `fetch_add(1)` on an `AtomicU64`.
abbrev pub bump : ℕ → ℕ
bump n = suc n % 2 ^ 64

abbrev pub incr_allowed : Stats → Stats
incr_allowed s = record s { allowed = bump s.allowed }

abbrev pub incr_dropped_per_source : Stats → Stats
incr_dropped_per_source s = record s { dropped_per_source = bump s.dropped_per_source }

abbrev pub incr_dropped_global : Stats → Stats
incr_dropped_global s = record s { dropped_global = bump s.dropped_global }

abbrev pub incr_promotions : Stats → Stats
incr_promotions s = record s { promotions = bump s.promotions }

abbrev pub incr_evictions : Stats → Stats
incr_evictions s = record s { evictions = bump s.evictions }

-- The count of a candidate, and when it was last seen.
abbrev pub Candidates : Type 0
Candidates = List (SourceKey × (ℕ × ℕ))

-- The new value of the timestamp: `now` if a second has gone by, or at the first drop.
unfoldable pub should_warn_log : Option ℕ → ℕ → Option ℕ
should_warn_log none now = some now
should_warn_log (some prev) now = if ltb (now - prev) (from_secs 1) then some prev else some now

-- `duration_since` stops at zero.
unfoldable pub sweep_expired : ℕ → Candidates → Candidates
sweep_expired now [] = []
sweep_expired now ((k, (count, last_seen)) ∷ m) =
    let rest = sweep_expired now m in
    if ltb (now - last_seen) candidate_ttl then (k, (count, last_seen)) ∷ rest else rest

-- `u32::saturating_add(1)`
abbrev pub saturating_suc : ℕ → ℕ
saturating_suc n = min (suc n) 0xffff_ffff

module _ (f : Float) (l : Lru SourceKey (TokenBucket f)) where
  pub record Inner : Type 0 where
    pub tracked : l.Cache
    pub candidates : Candidates
    pub max_candidates : ℕ
    pub global : TokenBucket f
    pub last_global_drop_warn : Option ℕ

  pub record RateLimiter : Type 0 where
    pub config : RateLimitSection
    pub inner : Option Inner
    pub stats : Stats

  unfoldable pub with_clock : RateLimitSection → (now : ℕ) → RateLimiter
  with_clock config now =
      let stats : Stats = record {
        allowed = 0;
        dropped_per_source = 0;
        dropped_global = 0;
        promotions = 0;
        evictions = 0;
      } in
      if not config.enabled
      then record { config = config; inner = none; stats = stats }
      else record {
        config = config;
        inner = some (record {
          tracked = l.new config.tracked_sources_capacity;
          candidates = [];
          max_candidates = config.tracked_sources_capacity;
          global = new_bucket f config.global_rate_per_sec config.global_burst now;
          last_global_drop_warn = none;
        });
        stats = stats;
      }

  unfoldable pub reset : RateLimitSection → ℕ → Inner → Inner
  reset config now inner = record inner {
    tracked = l.clear inner.tracked;
    candidates = [];
    global = new_bucket f config.global_rate_per_sec config.global_burst now;
    last_global_drop_warn = none;
  }

  unfoldable pub lock_recovering : (poisoned : Bool) → RateLimitSection → ℕ → Inner → Inner
  lock_recovering poisoned config now inner = if poisoned then reset config now inner else inner

  -- Tier 1.
  unfoldable pub serve_tracked :
      ℕ → SourceKey → TokenBucket f → Inner → Stats → Inner × Stats × Decision
  serve_tracked now key bucket inner stats =
      let (b, decision) = consume f now bucket in
      elim decision [
        | pass_bucket ↦
            (record inner { tracked = l.update key b inner.tracked }, incr_allowed stats, pass)
        | drop_bucket ↦ (
          record inner {
            tracked =
                l.update key (record b { last_warn_log = should_warn_log b.last_warn_log now })
                  inner.tracked;
          },
          incr_dropped_per_source stats,
          drop per_source_exhausted,
        )
      ]

  -- What `push` has evicted.
  unfoldable pub count_eviction : SourceKey → Option (SourceKey × TokenBucket f) → Stats → Stats
  count_eviction key none stats = stats
  count_eviction key (some (evicted_key, b)) stats =
      if not (evicted_key == key) then incr_evictions stats else stats

  -- The end of the function, once the count is known.
  unfoldable pub promote :
      RateLimitSection → ℕ → SourceKey → (new_count : ℕ) → Inner → Stats → Inner × Stats × Decision
  promote config now key new_count inner stats =
      if ltb new_count config.promotion_threshold then (inner, incr_allowed stats, pass) else (
        record inner {
          candidates = erase key inner.candidates;
          tracked =
              l.put key (new_bucket f config.per_source_rate_per_sec config.per_source_burst now)
                inner.tracked;
        },
        incr_allowed (incr_promotions (count_eviction key (l.evicted key inner.tracked) stats)),
        pass,
      )

  -- A source without an entry.
  unfoldable pub admit_candidate :
      RateLimitSection → ℕ → SourceKey → Inner → Stats → Inner × Stats × Decision
  admit_candidate config now key inner stats =
      let swept : Inner =
        if ltb (length inner.candidates) inner.max_candidates
        then inner
        else record inner { candidates = sweep_expired now inner.candidates } in
      if ltb (length swept.candidates) swept.max_candidates
      then promote config now key 1
          (record swept { candidates = (key, (1, now)) ∷ swept.candidates }) stats
      else (swept, incr_allowed stats, pass)

  -- Behind the global bucket.
  unfoldable pub count_candidate :
      RateLimitSection → ℕ → SourceKey → Inner → Stats → Inner × Stats × Decision
  count_candidate config now key inner stats = elim (lookup key inner.candidates) [
    | none ↦ admit_candidate config now key inner stats
    | some entry ↦
        let count = saturating_suc entry.0 in
        promote config now key count
          (record inner { candidates = (key, (count, now)) ∷ erase key inner.candidates }) stats
  ]

  -- Tier 2.
  unfoldable pub serve_global :
      RateLimitSection → ℕ → SourceKey → Inner → Stats → Inner × Stats × Decision
  serve_global config now key inner stats =
      let (b, decision) = consume f now inner.global in
      elim decision [
        | pass_bucket ↦ count_candidate config now key (record inner { global = b }) stats
        | drop_bucket ↦ (
          record inner {
            global = b;
            last_global_drop_warn = should_warn_log inner.last_global_drop_warn now;
          },
          incr_dropped_global stats,
          drop global_exhausted,
        )
      ]

  unfoldable pub check_locked :
      RateLimitSection → ℕ → SourceKey → Inner → Stats → Inner × Stats × Decision
  check_locked config now key inner stats = elim (l.get key inner.tracked) [
    | some bucket ↦ serve_tracked now key bucket inner stats
    | none ↦ serve_global config now key inner stats
  ]

  unfoldable pub check_inner :
      (poisoned : Bool)
      → ℕ
      → IpAddr
      → RateLimitSection
      → Option Inner
      → Stats
      → RateLimiter × Decision
  check_inner poisoned now src_ip config none stats =
      (record { config = config; inner = none; stats = incr_allowed stats }, pass)
  check_inner poisoned now src_ip config (some inner) stats =
      let key = from_ip src_ip config.ipv6_prefix_len in
      let (inner', stats', d) =
        check_locked config now key (lock_recovering poisoned config now inner) stats in
      (record { config = config; inner = some inner'; stats = stats' }, d)

  unfoldable pub check : (poisoned : Bool) → ℕ → IpAddr → RateLimiter → RateLimiter × Decision
  check poisoned now src_ip s = check_inner poisoned now src_ip s.config s.inner s.stats
