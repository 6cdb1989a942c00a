-- ===== src/RateLimit/Tests.antt =====
-- The rate limiter at concrete sources, with numbers for `f64`.
use fwknox.Base.{
  ℕ, ◌≡◌, ◌≢◌, ◌↔◌, refl, true, false, none, List, [], ◌∷◌, ◌++◌, arith, take, replicate,
}
use fwknox.Base.Assoc.{lookup}
use fwknox.Base.Lru.{list_lru}
use fwknox.Proto.Types.{v4, v6}
use fwknox.Config.Types.{default_rate_limit}
use fwknox.RateLimit.Key.{key_eq, from_ip, from_ip-prefix}
use fwknox.RateLimit.Bucket.{pass_bucket, drop_bucket, new_bucket, refill, consume}
use fwknox.RateLimit.Burst.{IsExact, consume_times, consume_times-burst}
use fwknox.RateLimit.Limiter.{
  drop, global_exhausted, Stats, Inner, serve_global, check_locked, check,
}
use fwknox.RateLimit.Sample.{numbers, limiter, source}
use fwknox.RateLimit.Counts.{
  tally, SameDecisions, check-tally, AreRoomy, check-AreRoomy, with_clock-AreRoomy,
  check_locked-rejected,
}

check-tally_example :
    let (s, d) = check numbers list_lru false 5 source limiter in
    SameDecisions s.stats (tally d limiter.stats)
check-tally_example = check-tally numbers list_lru false 5 source limiter

check-AreRoomy_example :
    AreRoomy numbers list_lru (check numbers list_lru true 5 source limiter).0.inner
check-AreRoomy_example =
    check-AreRoomy numbers list_lru true 5 source limiter
      (with_clock-AreRoomy numbers list_lru default_rate_limit 0)

-- A limiter whose global bucket is empty.
abbrev dry : Inner numbers list_lru
dry = record {
  tracked = (4, []);
  candidates = [];
  max_candidates = 4;
  global = record {
    capacity = 3;
    rate_per_sec = 1;
    tokens = 0;
    last_refill = 9;
    last_warn_log = none;
  };
  last_global_drop_warn = none;
}

abbrev counters : Stats
counters = limiter.stats

dry_rejects :
    (check_locked numbers list_lru default_rate_limit 9 (from_ip source 64) dry counters).2
    ≡ drop global_exhausted
unfolding check_locked serve_global consume refill lookup
dry_rejects = refl

check_locked-rejected_example :
    let (inner, stats, d) =
      check_locked numbers list_lru default_rate_limit 9 (from_ip source 64) dry counters in
    (inner.candidates ≡ dry.candidates) × (inner.tracked ≡ dry.tracked)
check_locked-rejected_example =
    check_locked-rejected numbers list_lru default_rate_limit 9 (from_ip source 64) dry counters
      dry_rejects

abbrev host_a : List ℕ
host_a = replicate 8 1 ++ replicate 8 2

abbrev host_b : List ℕ
host_b = replicate 8 1 ++ replicate 8 3

from_ip-prefix_example :
    ((from_ip (v6 host_a) 64 ≡ from_ip (v6 host_b) 64) ↔ (take 8 host_a ≡ take 8 host_b))
    × (from_ip (v6 host_a) 64 ≢ from_ip (v4 (10 ∷ 0 ∷ 0 ∷ 1 ∷ [])) 64)
from_ip-prefix_example =
    from_ip-prefix 8 host_a host_b (10 ∷ 0 ∷ 0 ∷ 1 ∷ []) (omega arith) (omega arith) refl refl

numbers-IsExact : IsExact numbers
numbers-IsExact = record {
  no_time = λ n r le. omega arith;
  lesser_of = λ m n m_le n_le. refl;
  one_less = λ n lt. omega arith;
  reaches = λ n le. refl;
}

consume_times-burst_example :
    consume_times numbers 5 7 (new_bucket numbers 10 3 7)
    ≡ replicate 3 pass_bucket ++ replicate 2 drop_bucket
consume_times-burst_example = consume_times-burst numbers numbers-IsExact 5 10 3 7 (omega arith)
