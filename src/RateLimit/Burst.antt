-- ===== src/RateLimit/Burst.antt =====
-- How many packets a bucket passes at one instant.
use fwknox.Base.{
  ℕ, zero, suc, ◌-◌, ◌^◌, ◌≡◌, ◌≤◌, ◌<◌, refl, ap, sym, ◌∙◌, true, false, List, [], ◌∷◌, ◌++◌,
  arith, min, leb, ltb, replicate,
}
use fwknox.RateLimit.Bucket.{
  Float, BucketDecision, pass_bucket, drop_bucket, TokenBucket, new_bucket, refill, consume,
}

-- What IEEE 754 promises of whole numbers up to 2^53, which `f64` holds exactly.
pub record IsExact (f : Float) : Type 0 where
  pub no_time :
      (n r : ℕ)
      → n ≤ 2 ^ 53
      → f.add (f.of_u64 n) (f.mul (f.as_secs_f64 0) (f.of_u64 r)) ≡ f.of_u64 n
  pub lesser_of :
      (m n : ℕ) → m ≤ 2 ^ 53 → n ≤ 2 ^ 53 → f.lesser (f.of_u64 m) (f.of_u64 n) ≡ f.of_u64 (min m n)
  pub one_less : (n : ℕ) → n < 2 ^ 53 → f.sub (f.of_u64 (suc n)) f.one ≡ f.of_u64 n
  pub reaches : (n : ℕ) → n ≤ 2 ^ 53 → f.reaches_one (f.of_u64 n) ≡ leb 1 n

module _ (f : Float) where
  -- Calls of `consume` in a row.
  unfoldable pub consume_times : ℕ → (now : ℕ) → TokenBucket f → List BucketDecision
  consume_times zero now b = []
  consume_times (suc k) now b =
      let (b', decision) = consume f now b in decision ∷ consume_times k now b'

module _ (f : Float) (exact : IsExact f) where
  -- A bucket whose last refill is now, with so many whole tokens.
  abbrev holding : (rate cap now tokens : ℕ) → TokenBucket f
  holding rate cap now tokens = record (new_bucket f rate cap now) { tokens = f.of_u64 tokens }

  refill-holding :
      (rate cap now n : ℕ)
      → n ≤ cap
      → cap ≤ 2 ^ 53
      → refill f now (holding rate cap now n) ≡ holding rate cap now n
  unfolding refill new_bucket
  refill-holding rate cap now n le fits =
      let still : ltb now now ≡ false = ground arith in
      let no_gap : now - now ≡ 0 = omega arith in
      let full : min n cap ≡ n = omega arith in
      rw still (λ i. record (holding rate cap now n) {
        tokens =
            (ap
                  (λ d.
                    f.lesser (f.add (f.of_u64 n) (f.mul (f.as_secs_f64 d) (f.of_u64 rate)))
                      (f.of_u64 cap))
                  no_gap
                ∙ ap (λ x. f.lesser x (f.of_u64 cap)) (exact.no_time n rate (omega arith))
                ∙ exact.lesser_of n cap (omega arith) fits
                ∙ ap f.of_u64 full)
              i;
      })

  consume-suc :
      (rate cap now n : ℕ)
      → suc n ≤ cap
      → cap ≤ 2 ^ 53
      → consume f now (holding rate cap now (suc n)) ≡ (holding rate cap now n, pass_bucket)
  unfolding consume new_bucket
  consume-suc rate cap now n le fits =
      let some_left : f.reaches_one (f.of_u64 (suc n)) ≡ true =
        exact.reaches (suc n) (omega arith) ∙ ground arith in
      rw (refill-holding rate cap now (suc n) le fits, some_left, exact.one_less n (omega arith))
        refl

  consume-zero :
      (rate cap now : ℕ)
      → cap ≤ 2 ^ 53
      → consume f now (holding rate cap now 0) ≡ (holding rate cap now 0, drop_bucket)
  unfolding consume new_bucket
  consume-zero rate cap now fits =
      let none_left : f.reaches_one (f.of_u64 0) ≡ false = exact.reaches 0 (omega arith) ∙ refl in
      rw (refill-holding rate cap now 0 (omega arith) fits, none_left) refl

  -- What is expected of `k` calls on `n` tokens.
  abbrev expected : (k n : ℕ) → List BucketDecision
  expected k n = replicate (min k n) pass_bucket ++ replicate (k - n) drop_bucket

  expected-counts :
      (k n i j : ℕ)
      → min k n ≡ i
      → k - n ≡ j
      → expected k n ≡ replicate i pass_bucket ++ replicate j drop_bucket
  expected-counts k n i j few rest = rw (few, rest) refl

  consume_times-holding :
      (k rate cap now n : ℕ)
      → n ≤ cap
      → cap ≤ 2 ^ 53
      → consume_times f k now (holding rate cap now n) ≡ expected k n
  unfolding consume_times
  consume_times-holding zero rate cap now n le fits =
      sym (expected-counts 0 n 0 0 (omega arith) (omega arith))
  consume_times-holding (suc k) rate cap now zero le fits = rw (consume-zero rate cap now fits) (
      ap (◌∷◌ drop_bucket) (
        consume_times-holding k rate cap now 0 le fits
        ∙ expected-counts k 0 0 k (omega arith) (omega arith))
      ∙ sym (expected-counts (suc k) 0 0 (suc k) (omega arith) (omega arith)))
  consume_times-holding (suc k) rate cap now (suc n) le fits =
      rw (consume-suc rate cap now n le fits) (
        ap (◌∷◌ pass_bucket) (consume_times-holding k rate cap now n (omega arith) fits)
        ∙ sym (expected-counts (suc k) (suc n) (suc (min k n)) (k - n) (omega arith) (omega arith)))

  -- Where the floating-point numbers are exact on whole numbers up to 2^53: of any number of packets
  -- at the instant at which a bucket is made, exactly the first ones pass, as many as its capacity, and
  -- all others are dropped, whatever its rate.
  pub consume_times-burst :
      (k rate cap now : ℕ)
      → cap ≤ 2 ^ 53
      → consume_times f k now (new_bucket f rate cap now)
        ≡ replicate (min k cap) pass_bucket ++ replicate (k - cap) drop_bucket
  unfolding new_bucket
  consume_times-burst k rate cap now fits =
      consume_times-holding k rate cap now cap (omega arith) fits
