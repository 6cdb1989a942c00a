-- ===== src/RateLimit/Bucket.antt =====
-- crates/fwknox-ratelimit/src/bucket.rs: a bucket that refills by the time that has passed. `f64` is
-- a parameter; an `Instant` is a number of nanoseconds.
use fwknox.Base.{ℕ, ◌-◌, Bool, Option, none, ltb, if◌then◌else◌}
use fwknox.Config.Types.{Duration}

-- The operations on `f64` that the buckets use; `reaches_one x` is `x >= 1.0`.
pub record Float : Type 1 where
  pub F64 : Type 0
  pub one : F64
  pub of_u64 : ℕ → F64
  pub as_secs_f64 : Duration → F64
  pub add : F64 → F64 → F64
  pub sub : F64 → F64 → F64
  pub mul : F64 → F64 → F64
  pub lesser : F64 → F64 → F64
  pub reaches_one : F64 → Bool

pub data BucketDecision : Type 0 where
  pass_bucket drop_bucket : BucketDecision

module _ (f : Float) where
  pub record TokenBucket : Type 0 where
    pub capacity : f.F64
    pub rate_per_sec : f.F64
    pub tokens : f.F64
    pub last_refill : ℕ
    pub last_warn_log : Option ℕ

  unfoldable pub new_bucket : (rate_per_sec capacity now : ℕ) → TokenBucket
  new_bucket rate_per_sec capacity now = record {
    capacity = f.of_u64 capacity;
    rate_per_sec = f.of_u64 rate_per_sec;
    tokens = f.of_u64 capacity;
    last_refill = now;
    last_warn_log = none;
  }

  -- A clock that has gone back refills nothing.
  unfoldable pub refill : ℕ → TokenBucket → TokenBucket
  refill now b = if ltb now b.last_refill then b else record b {
    tokens =
        f.lesser (f.add b.tokens (f.mul (f.as_secs_f64 (now - b.last_refill)) b.rate_per_sec))
          b.capacity;
    last_refill = now;
  }

  unfoldable pub consume : ℕ → TokenBucket → TokenBucket × BucketDecision
  consume now b =
      let b' = refill now b in
      if f.reaches_one b'.tokens
      then (record b' { tokens = f.sub b'.tokens f.one }, pass_bucket)
      else (b', drop_bucket)
