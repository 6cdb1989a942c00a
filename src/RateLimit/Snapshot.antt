-- ===== src/RateLimit/Snapshot.antt =====
-- What else the crate offers: `from_config`, the snapshot of the counters (stats.rs) and the clock for
-- tests (clock.rs). An `Instant` is a number of nanoseconds.
use fwknox.Base.{ℕ, ◌+◌}
use fwknox.Base.Lru.{Lru}
use fwknox.Config.Types.{Duration, RateLimitSection}
use fwknox.RateLimit.Key.{SourceKey}
use fwknox.RateLimit.Bucket.{Float, TokenBucket}
use fwknox.RateLimit.Limiter.{Stats, RateLimiter, with_clock}

pub record StatsSnapshot : Type 0 where
  pub allowed : ℕ
  pub dropped_per_source : ℕ
  pub dropped_global : ℕ
  pub promotions : ℕ
  pub evictions : ℕ

unfoldable pub snapshot : Stats → StatsSnapshot
snapshot s = record {
  allowed = s.allowed;
  dropped_per_source = s.dropped_per_source;
  dropped_global = s.dropped_global;
  promotions = s.promotions;
  evictions = s.evictions;
}

pub record MockClock : Type 0 where
  pub current : ℕ

unfoldable pub advance : Duration → MockClock → MockClock
advance delta clock = record { current = clock.current + delta }

unfoldable pub mock_now : MockClock → ℕ
mock_now clock = clock.current

module _ (f : Float) (l : Lru SourceKey (TokenBucket f)) where
  -- `now` is what the system's clock gives.
  unfoldable pub from_config : RateLimitSection → (now : ℕ) → RateLimiter f l
  unfolding with_clock
  from_config config now = with_clock f l config now

  unfoldable pub stats : RateLimiter f l → StatsSnapshot
  stats limiter = snapshot limiter.stats
