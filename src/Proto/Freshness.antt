-- ===== src/Proto/Freshness.antt =====
-- crates/fwknox-proto/src/validate.rs: the age of a payload against the wall clock. The release
-- profile sets no `overflow-checks`, so the subtraction on `i64` wraps.
use fwknox.Base.{ℕ, ◌+◌, ◌≡◌, ◌<◌, ◌≤◌, ◌↔◌, arith, Result, ok, ◌>>◌, fail_if}
use fwknox.Base.Int.{ℤ, pos, pos_part, neg_part, ltb_ℤ, sub_i64, IsI64, i64_half, i64_mod}
use fwknox.Proto.Types.{SpaPayload, ProtoError, packet_too_old, packet_in_future}

abbrev pub default_max_age_secs : ℤ
default_max_age_secs = pos 120

abbrev pub default_max_skew_secs : ℤ
default_max_skew_secs = pos 30

-- `-a` on `i64`.
abbrev pub neg_i64 : ℤ → ℤ
neg_i64 a = sub_i64 (pos 0) a

-- `Validated` is a unit struct.
unfoldable pub validate_against_clock :
    SpaPayload → (now_unix max_age_secs max_skew_secs : ℤ) → Result ProtoError (Unit {0})
validate_against_clock payload now_unix max_age_secs max_skew_secs = do
  let delta = sub_i64 now_unix payload.timestamp
  fail_if (ltb_ℤ delta (neg_i64 max_skew_secs)) (packet_in_future (neg_i64 delta))
  fail_if (ltb_ℤ max_age_secs delta) (packet_too_old delta max_age_secs)

-- The wrapped difference, by the three places where the true difference may lie.
sub_i64-exact :
    (a b : ℤ)
    → IsI64 a
    → IsI64 b
    → pos_part a + neg_part b < neg_part a + pos_part b + i64_half
    → neg_part a + pos_part b ≤ pos_part a + neg_part b + i64_half
    → pos_part (sub_i64 a b) + neg_part a + pos_part b
      ≡ neg_part (sub_i64 a b) + pos_part a + neg_part b
unfolding sub_i64
sub_i64-exact a b ia ib hi lo = ground arith

-- A wrapped difference lies 2^64 below the true one.
sub_i64-over :
    (n : ℕ) (b : ℤ)
    → n < i64_half
    → IsI64 b
    → pos_part b + i64_half ≤ n + neg_part b
    → n + neg_part b + neg_part (sub_i64 (pos n) b)
      ≡ pos_part b + pos_part (sub_i64 (pos n) b) + i64_mod
unfolding sub_i64
sub_i64-over n b hn ib hi = ground arith

neg_i64-pos : (s : ℕ) → s < i64_half → neg_part (neg_i64 (pos s)) ≡ s
unfolding sub_i64
neg_i64-pos s h = ground arith

pos_neg_i64-pos : (s : ℕ) → s < i64_half → pos_part (neg_i64 (pos s)) ≡ 0
unfolding sub_i64
pos_neg_i64-pos s h = ground arith

-- The timestamps that the documentation admits: no more than `skew` ahead of the clock and no
-- more than `age` behind it, over the integers.
pub record IsFresh (now age skew : ℕ) (timestamp : ℤ) : Type 0 where
  pub not_ahead : pos_part timestamp ≤ now + skew + neg_part timestamp
  pub not_behind : now + neg_part timestamp ≤ pos_part timestamp + age

module _ (p : SpaPayload) (now age skew : ℕ) (clock : now + skew < i64_half)
    (limit : age < i64_half) (stamp : IsI64 p.timestamp) where
  -- With the clock, the age and the skew in range, a payload with an `i64` timestamp passes
  -- exactly when that lies in the window: the wrap-around of the subtraction admits none that the
  -- integers reject.
  pub validate_against_clock-IsFresh :
      (validate_against_clock p (pos now) (pos age) (pos skew) ≡ ok tt)
      ↔ IsFresh now age skew p.timestamp
  unfolding validate_against_clock
  validate_against_clock-IsFresh = (
    λ h.
        ground (arith, exact, sub_i64-over now p.timestamp, neg_i64-pos skew, pos_neg_i64-pos skew),
    λ f.
        ground (arith, exact, sub_i64-over now p.timestamp, neg_i64-pos skew, pos_neg_i64-pos skew),
  )
    where
      exact :
          now + neg_part p.timestamp < pos_part p.timestamp + i64_half
          → pos_part (sub_i64 (pos now) p.timestamp) + pos_part p.timestamp
            ≡ neg_part (sub_i64 (pos now) p.timestamp) + now + neg_part p.timestamp
      exact h = omega (arith, sub_i64-exact (pos now) p.timestamp)
