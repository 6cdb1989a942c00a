-- ===== src/RateLimit/Sample.antt =====
-- The rate limiter with numbers for `f64`, as it starts.
use fwknox.Base.{◌+◌, ◌-◌, ◌*◌, ℕ, [], ◌∷◌, min, leb}
use fwknox.Base.Lru.{list_lru}
use fwknox.Proto.Types.{IpAddr, v4}
use fwknox.Config.Types.{as_secs, default_rate_limit}
use fwknox.RateLimit.Key.{key_eq}
use fwknox.RateLimit.Bucket.{Float}
use fwknox.RateLimit.Limiter.{RateLimiter, with_clock}

abbrev pub numbers : Float
numbers = record {
  F64 = ℕ;
  one = 1;
  of_u64 = λ n. n;
  as_secs_f64 = as_secs;
  add = λ a b. a + b;
  sub = λ a b. a - b;
  mul = λ a b. a * b;
  lesser = min;
  reaches_one = leb 1;
}

abbrev pub limiter : RateLimiter numbers list_lru
limiter = with_clock numbers list_lru default_rate_limit 0

abbrev pub source : IpAddr
source = v4 (198 ∷ 51 ∷ 100 ∷ 7 ∷ [])
