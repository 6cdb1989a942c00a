-- ===== src/RateLimit/Counts.antt =====
-- What a decision of the rate limiter does to the counters and to the map of candidates.
use fwknox.Base.{
  ℕ, suc, ◌%◌, ◌^◌, ◌≢◌, ◌≡◌, ◌≤◌, refl, sym, ◌∙◌, Bool, true, false, Option, none, some, [], ◌∷◌,
  arith, ltb, ltb→lt, length, Bool-cases, Option-cases, inl, inr, ◌⊎◌, if◌then◌else◌,
}
use fwknox.Base.Assoc.{
  lookup, erase, Distinct, Distinct-erase, lookup-erase_self, length-erase, length-erase-le,
}
use fwknox.Base.Lru.{Lru}
use fwknox.Proto.Types.{IpAddr}
use fwknox.Config.Types.{RateLimitSection}
use fwknox.RateLimit.Key.{SourceKey, key_eq, from_ip}
use fwknox.RateLimit.Bucket.{Float, TokenBucket, consume, BucketDecision, pass_bucket, drop_bucket}
use fwknox.RateLimit.Limiter.{
  per_source_exhausted, global_exhausted, Decision, pass, drop, Stats, incr_allowed, Candidates,
  sweep_expired, saturating_suc, Inner, RateLimiter, lock_recovering, reset, serve_tracked,
  count_eviction, promote, admit_candidate, count_candidate, serve_global, check_locked,
  check_inner, check, with_clock,
}

-- The counter that a decision belongs to, one higher, in 64 bits.
pub tally : Decision → Stats → Stats
tally pass s = record s { allowed = suc s.allowed % 2 ^ 64 }
tally (drop per_source_exhausted) s = record s {
  dropped_per_source = suc s.dropped_per_source % 2 ^ 64;
}
tally (drop global_exhausted) s = record s { dropped_global = suc s.dropped_global % 2 ^ 64 }

-- The three counters of decisions agree.
abbrev pub SameDecisions : Stats → Stats → Type 0
SameDecisions a b =
    (a.allowed ≡ b.allowed)
    × (a.dropped_per_source ≡ b.dropped_per_source)
    × (a.dropped_global ≡ b.dropped_global)

-- The candidates fit in the map, none twice.
pub record IsRoomy (max : ℕ) (m : Candidates) : Type 0 where
  pub fits : length m ≤ max
  pub distinct : Distinct m

lookup-sweep_expired :
    (now : ℕ) (k : SourceKey) (m : Candidates)
    → lookup k m ≡ none
    → lookup k (sweep_expired now m) ≡ none
unfolding lookup sweep_expired
lookup-sweep_expired now k [] h = refl
lookup-sweep_expired now k ((j, (count, last_seen)) ∷ m) h =
    ground (arith, lookup-sweep_expired now k m, key_eq.decides j k)

length-sweep_expired-le : (now : ℕ) (m : Candidates) → length (sweep_expired now m) ≤ length m
unfolding sweep_expired
length-sweep_expired-le now [] = omega arith
length-sweep_expired-le now ((j, (count, last_seen)) ∷ m) =
    ground (arith, length-sweep_expired-le now m)

Distinct-sweep_expired : (now : ℕ) (m : Candidates) → Distinct m → Distinct (sweep_expired now m)
unfolding sweep_expired
Distinct-sweep_expired now [] d = tt
Distinct-sweep_expired now ((j, (count, last_seen)) ∷ m) d =
    ground (arith, Distinct-sweep_expired now m d.1, lookup-sweep_expired now j m d.0)

sweep_expired-IsRoomy :
    (now max : ℕ) (m : Candidates) → IsRoomy max m → IsRoomy max (sweep_expired now m)
sweep_expired-IsRoomy now max m r = record {
  fits = omega (arith, length-sweep_expired-le now m, r.fits);
  distinct = Distinct-sweep_expired now m r.distinct;
}

Bucket-cases : (d : BucketDecision) → (d ≡ pass_bucket) ⊎ (d ≡ drop_bucket)
Bucket-cases pass_bucket = inl refl
Bucket-cases drop_bucket = inr refl

module _ (f : Float) (l : Lru SourceKey (TokenBucket f)) where
  module _ (config : RateLimitSection) (now : ℕ) (key : SourceKey) where
    promote-tally :
        (n : ℕ) (inner : Inner f l) (stats : Stats)
        → let (inner', stats', d) = promote f l config now key n inner stats in
          SameDecisions stats' (tally d stats)
    unfolding promote tally count_eviction
    promote-tally n inner stats = ground arith

    count_known :
        (inner : Inner f l) (stats : Stats) {e : ℕ × ℕ}
        → lookup key inner.candidates ≡ some e
        → count_candidate f l config now key inner stats
          ≡ promote f l config now key
              (saturating_suc e.0)
              (record inner {
                candidates = (key, (saturating_suc e.0, now)) ∷ erase key inner.candidates;
              })
              stats
    unfolding count_candidate
    count_known inner stats e = rw (e, count_candidate) refl

    count_unknown :
        (inner : Inner f l) (stats : Stats)
        → lookup key inner.candidates ≡ none
        → count_candidate f l config now key inner stats
          ≡ admit_candidate f l config now key inner stats
    unfolding count_candidate
    count_unknown inner stats e = rw (e, count_candidate) refl

    -- The map that a new candidate meets.
    swept : Inner f l → Inner f l
    swept inner =
        if ltb (length inner.candidates) inner.max_candidates
        then inner
        else record inner { candidates = sweep_expired now inner.candidates }

    admit_room :
        (inner : Inner f l) (stats : Stats)
        → ltb (length (swept inner).candidates) (swept inner).max_candidates ≡ true
        → admit_candidate f l config now key inner stats
          ≡ promote f l config now key 1
              (record (swept inner) { candidates = (key, (1, now)) ∷ (swept inner).candidates })
              stats
    unfolding admit_candidate swept
    admit_room inner stats e = rw (e, admit_candidate) refl

    admit_full :
        (inner : Inner f l) (stats : Stats)
        → ltb (length (swept inner).candidates) (swept inner).max_candidates ≡ false
        → admit_candidate f l config now key inner stats ≡ (swept inner, incr_allowed stats, pass)
    unfolding admit_candidate swept
    admit_full inner stats e = rw (e, admit_candidate) refl

    count_candidate-tally :
        (inner : Inner f l) (stats : Stats)
        → let (inner', stats', d) = count_candidate f l config now key inner stats in
          SameDecisions stats' (tally d stats)
    unfolding tally
    count_candidate-tally inner stats = elim (Option-cases (lookup key inner.candidates)) [
      | inr (e, known) ↦ rw (count_known inner stats known) (promote-tally _ _ stats)
      | inl unknown ↦
          rw (count_unknown inner stats unknown)
            (elim (Bool-cases
              (ltb (length (swept inner).candidates) (swept inner).max_candidates)) [
                | inl room ↦ rw (admit_room inner stats room) (promote-tally _ _ stats)
                | inr full ↦ rw (admit_full inner stats full) (refl, refl, refl)
              ])
    ]

    check_tracked :
        (inner : Inner f l) (stats : Stats) {b : TokenBucket f}
        → l.get key inner.tracked ≡ some b
        → check_locked f l config now key inner stats ≡ serve_tracked f l now key b inner stats
    unfolding check_locked
    check_tracked inner stats e = rw (e, check_locked) refl

    check_untracked :
        (inner : Inner f l) (stats : Stats)
        → l.get key inner.tracked ≡ none
        → check_locked f l config now key inner stats ≡ serve_global f l config now key inner stats
    unfolding check_locked
    check_untracked inner stats e = rw (e, check_locked) refl

    serve_tracked-tally :
        (b : TokenBucket f) (inner : Inner f l) (stats : Stats)
        → let (inner', stats', d) = serve_tracked f l now key b inner stats in
          SameDecisions stats' (tally d stats)
    unfolding serve_tracked tally
    serve_tracked-tally b inner stats = ground arith

    serve_global_pass :
        (inner : Inner f l) (stats : Stats)
        → (consume f now inner.global).1 ≡ pass_bucket
        → serve_global f l config now key inner stats
          ≡ count_candidate f l config now key
              (record inner { global = (consume f now inner.global).0 })
              stats
    unfolding serve_global
    serve_global_pass inner stats e = rw (e, serve_global) refl

    serve_global-tally :
        (inner : Inner f l) (stats : Stats)
        → let (inner', stats', d) = serve_global f l config now key inner stats in
          SameDecisions stats' (tally d stats)
    unfolding tally serve_global
    serve_global-tally inner stats = elim (Bucket-cases (consume f now inner.global).1) [
      | inl passed ↦ rw (serve_global_pass inner stats passed) (count_candidate-tally _ stats)
      | inr dropped ↦ rw (dropped, serve_global) (refl, refl, refl)
    ]

    check_locked-tally :
        (inner : Inner f l) (stats : Stats)
        → let (inner', stats', d) = check_locked f l config now key inner stats in
          SameDecisions stats' (tally d stats)
    check_locked-tally inner stats = elim (Option-cases (l.get key inner.tracked)) [
      | inr (b, known) ↦ rw (check_tracked inner stats known) (serve_tracked-tally b inner stats)
      | inl unknown ↦ rw (check_untracked inner stats unknown) (serve_global-tally inner stats)
    ]

    promote_pass :
        (n : ℕ) (inner : Inner f l) (stats : Stats)
        → (promote f l config now key n inner stats).2 ≡ pass
    unfolding promote
    promote_pass n inner stats = ground arith

    count_candidate_pass :
        (inner : Inner f l) (stats : Stats)
        → (count_candidate f l config now key inner stats).2 ≡ pass
    count_candidate_pass inner stats = elim (Option-cases (lookup key inner.candidates)) [
      | inr (e, known) ↦ rw (count_known inner stats known) (promote_pass _ _ stats)
      | inl unknown ↦
          rw (count_unknown inner stats unknown)
            (elim (Bool-cases
              (ltb (length (swept inner).candidates) (swept inner).max_candidates)) [
                | inl room ↦ rw (admit_room inner stats room) (promote_pass _ _ stats)
                | inr full ↦ rw (admit_full inner stats full) refl
              ])
    ]

    serve_tracked_kept :
        (b : TokenBucket f) (inner : Inner f l) (stats : Stats)
        → ((serve_tracked f l now key b inner stats).0.candidates ≡ inner.candidates)
          × ((serve_tracked f l now key b inner stats).0.max_candidates ≡ inner.max_candidates)
          × ((serve_tracked f l now key b inner stats).2 ≢ drop global_exhausted)
    unfolding serve_tracked
    serve_tracked_kept b inner stats = elim (Bucket-cases (consume f now b).1) [
      | inl passed ↦ rw (passed, serve_tracked) (refl, refl, λ e. cc)
      | inr dropped ↦ rw (dropped, serve_tracked) (refl, refl, λ e. cc)
    ]

    -- A packet that the global bucket rejects changes neither the candidates nor the tracked
    -- sources: rejected traffic earns no promotion.
    pub check_locked-rejected :
        (inner : Inner f l) (stats : Stats)
        → let (inner', stats', d) = check_locked f l config now key inner stats in
          d ≡ drop global_exhausted
          → (inner'.candidates ≡ inner.candidates) × (inner'.tracked ≡ inner.tracked)
    unfolding serve_global
    check_locked-rejected inner stats = elim (Option-cases (l.get key inner.tracked)) [
      | inr (b, known) ↦
          rw (check_tracked inner stats known)
            (λ e. absurd ((serve_tracked_kept b inner stats).2 e))
      | inl unknown ↦
          rw (check_untracked inner stats unknown)
            (elim (Bucket-cases (consume f now inner.global).1) [
              | inl passed ↦
                  rw (serve_global_pass inner stats passed)
                    (λ e. absurd (let q = sym (count_candidate_pass _ stats) ∙ e in cc))
              | inr dropped ↦ rw (dropped, serve_global) (λ e. (refl, refl))
            ])
    ]

    -- The candidates and their bound, wherever the function goes.
    abbrev Roomy : Inner f l → Type 0
    Roomy inner = IsRoomy inner.max_candidates inner.candidates

    promote-IsRoomy :
        (n : ℕ) (inner : Inner f l) (stats : Stats)
        → Roomy inner
        → Roomy (promote f l config now key n inner stats).0
    unfolding promote
    promote-IsRoomy n inner stats r = elim (Bool-cases (ltb n config.promotion_threshold)) [
      | inl few ↦ rw (few, promote) r
      | inr many ↦
          rw (many, promote)
            (record {
              fits = omega (arith, length-erase-le key inner.candidates, r.fits);
              distinct = Distinct-erase key inner.candidates r.distinct;
            })
    ]

    swept-IsRoomy : (inner : Inner f l) → Roomy inner → Roomy (swept inner)
    unfolding swept
    swept-IsRoomy inner r = elim (Bool-cases (ltb (length inner.candidates) inner.max_candidates)) [
      | inl room ↦ rw room r
      | inr full ↦ rw full (sweep_expired-IsRoomy now inner.max_candidates inner.candidates r)
    ]

    swept-absent :
        (inner : Inner f l)
        → lookup key inner.candidates ≡ none
        → lookup key (swept inner).candidates ≡ none
    unfolding swept
    swept-absent inner h = elim (Bool-cases (ltb (length inner.candidates) inner.max_candidates)) [
      | inl room ↦ rw room h
      | inr full ↦ rw full (lookup-sweep_expired now key inner.candidates h)
    ]

    count_candidate-IsRoomy :
        (inner : Inner f l) (stats : Stats)
        → Roomy inner
        → Roomy (count_candidate f l config now key inner stats).0
    count_candidate-IsRoomy inner stats r = elim (Option-cases (lookup key inner.candidates)) [
      | inr (e, known) ↦ rw (count_known inner stats known) (
          promote-IsRoomy _ _ stats (record {
            fits = omega (arith, length-erase key inner.candidates known, r.fits);
            distinct = (
              lookup-erase_self key inner.candidates r.distinct,
              Distinct-erase key inner.candidates r.distinct,
            );
          }))
      | inl unknown ↦
          rw (count_unknown inner stats unknown)
            (elim (Bool-cases
              (ltb (length (swept inner).candidates) (swept inner).max_candidates)) [
                | inl room ↦ rw (admit_room inner stats room) (
                    promote-IsRoomy _ _ stats (record {
                      fits = omega (arith, ltb→lt _ _ room);
                      distinct = (swept-absent inner unknown, (swept-IsRoomy inner r).distinct);
                    }))
                | inr full ↦ rw (admit_full inner stats full) (swept-IsRoomy inner r)
              ])
    ]

    check_locked-IsRoomy :
        (inner : Inner f l) (stats : Stats)
        → Roomy inner
        → Roomy (check_locked f l config now key inner stats).0
    unfolding serve_global
    check_locked-IsRoomy inner stats r = elim (Option-cases (l.get key inner.tracked)) [
      | inr (b, known) ↦
          let (candidates, max, _) = serve_tracked_kept b inner stats in
          rw (check_tracked inner stats known) (rw (candidates, max) r)
      | inl unknown ↦
          rw (check_untracked inner stats unknown)
            (elim (Bucket-cases (consume f now inner.global).1) [
              | inl passed ↦
                  rw (serve_global_pass inner stats passed) (count_candidate-IsRoomy _ stats r)
              | inr dropped ↦ rw (dropped, serve_global) r
            ])
    ]

  -- The state of an enabled limiter is roomy.
  abbrev pub AreRoomy : Option (Inner f l) → Type 0
  AreRoomy none = Unit
  AreRoomy (some inner) = IsRoomy inner.max_candidates inner.candidates

  check_inner-tally :
      (poisoned : Bool) (now : ℕ) (src_ip : IpAddr) (config : RateLimitSection)
      (inner : Option (Inner f l)) (stats : Stats)
      → let (s', d) = check_inner f l poisoned now src_ip config inner stats in
        SameDecisions s'.stats (tally d stats)
  unfolding check_inner tally
  check_inner-tally poisoned now src_ip config none stats = (refl, refl, refl)
  check_inner-tally poisoned now src_ip config (some inner) stats =
      check_locked-tally config now (from_ip src_ip config.ipv6_prefix_len)
        (lock_recovering f l poisoned config now inner) stats

  -- Every call, on an enabled or a disabled limiter, after a panic too, adds one to the counter of
  -- its decision, with the wrap-around of a `u64`, and leaves the other two as they are.
  pub check-tally :
      (poisoned : Bool) (now : ℕ) (src_ip : IpAddr) (s : RateLimiter f l)
      → let (s', d) = check f l poisoned now src_ip s in SameDecisions s'.stats (tally d s.stats)
  unfolding check
  check-tally poisoned now src_ip s = check_inner-tally poisoned now src_ip s.config s.inner s.stats

  lock_recovering-IsRoomy :
      (poisoned : Bool) (config : RateLimitSection) (now : ℕ) (inner : Inner f l)
      → AreRoomy (some inner)
      → AreRoomy (some (lock_recovering f l poisoned config now inner))
  unfolding lock_recovering reset
  lock_recovering-IsRoomy true config now inner r = record { fits = omega arith; distinct = tt }
  lock_recovering-IsRoomy false config now inner r = r

  check_inner-AreRoomy :
      (poisoned : Bool) (now : ℕ) (src_ip : IpAddr) (config : RateLimitSection)
      (inner : Option (Inner f l)) (stats : Stats)
      → AreRoomy inner
      → AreRoomy (check_inner f l poisoned now src_ip config inner stats).0.inner
  unfolding check_inner
  check_inner-AreRoomy poisoned now src_ip config none stats r = tt
  check_inner-AreRoomy poisoned now src_ip config (some inner) stats r =
      check_locked-IsRoomy config now (from_ip src_ip config.ipv6_prefix_len) _ stats
        (lock_recovering-IsRoomy poisoned config now inner r)

  -- Every call keeps the candidates of a limiter within their bound, and no source twice among
  -- them, if they were so before, however many sources a flood comes from.
  pub check-AreRoomy :
      (poisoned : Bool) (now : ℕ) (src_ip : IpAddr) (s : RateLimiter f l)
      → AreRoomy s.inner
      → AreRoomy (check f l poisoned now src_ip s).0.inner
  unfolding check
  check-AreRoomy poisoned now src_ip s r =
      check_inner-AreRoomy poisoned now src_ip s.config s.inner s.stats r

  -- A limiter starts roomy.
  pub with_clock-AreRoomy :
      (config : RateLimitSection) (now : ℕ) → AreRoomy (with_clock f l config now).inner
  unfolding with_clock
  with_clock-AreRoomy config now = elim (Bool-cases config.enabled) [
    | inl on ↦ rw (on, with_clock) (record { fits = omega arith; distinct = tt })
    | inr off ↦ rw (off, with_clock) tt
  ]
