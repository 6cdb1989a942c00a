-- ===== src/Daemon/Loop.antt =====
-- The main loop: when it ends, what it keeps, and how often it prunes.
use fwknox.Base.{
  ℕ, suc, zero, ◌+◌, ◌-◌, ◌%◌, ◌^◌, ◌≡◌, ◌<◌, ◌≤◌, refl, ap, ◌∙◌, Bool, true, false, none, some,
  List, [], ◌∷◌, ◌++◌, map, arith, nat_beq, length, ok, nat_eq, list_eq, Result-cases, Bool-cases,
  inl, inr, subst, some-eq,
}
use fwknox.Base.Lru.{Lru, IsLru}
use fwknox.Config.Types.{FilePath, DaemonConfig, as_secs}
use fwknox.Replay.Cache.{Entries, WriteCalls, write_outcome, save_to_file, write_cache_file}
use fwknox.Replay.Check.{IsStore}
use fwknox.Replay.Window.{after, check_and_insert-IsStore}
use fwknox.Replay.Kept.{AreSince, fresh-AreSince, prune_older_than-iter, prune_older_than-IsStore}
use fwknox.RateLimit.Key.{SourceKey}
use fwknox.RateLimit.Bucket.{Float, TokenBucket}
use fwknox.RateLimit.Limiter.{Decision, pass, drop, RateLimiter}
use fwknox.RateLimit.Counts.{AreRoomy, check-AreRoomy}
use fwknox.Daemon.Host.{Host, State, Moment, CapturedPacket}
use fwknox.Daemon.Pipeline.{authenticate, process_packet}
use fwknox.Daemon.Steps.{process_stop, process_go}
use fwknox.Daemon.Run.{
  Received, quiet, failed, datagram, Turn, Poll, shut_down, go, next_tick, prune_every_ticks,
  prune_on_tick, flush_if, start, finish, Looping, on_decision, on_received, round, loop,
  after_loop, run_started, run,
}

module _ (host : Host) (lru : IsLru host.lru) (config : DaemonConfig) where
  pub process_packet-IsStore :
      (m : Moment) (p : CapturedPacket) (s : State host)
      → IsStore lru s.replay
      → IsStore lru (process_packet host m config p s).0.replay
  unfolding after
  process_packet-IsStore m p s h = elim (Result-cases (authenticate host m config p)) [
    | inr (out, e) ↦ rw (process_stop host m config p s e) h
    | inl (r, e) ↦
        rw (process_go host m config p s e)
          (check_and_insert-IsStore lru m.replay_now m.writes r.payload.nonce s.replay h)
  ]

  pub prune_on_tick-IsStore :
      (tick : ℕ) (m : Moment) (s : State host)
      → IsStore lru s.replay
      → IsStore lru (prune_on_tick host config tick m s).replay
  unfolding prune_on_tick
  prune_on_tick-IsStore tick m s h = elim (Bool-cases (nat_beq (tick % prune_every_ticks) 0)) [
    | inl due ↦
        rw due (prune_older_than-IsStore lru m.replay_now m.writes config.replay.max_age s.replay h)
    | inr early ↦ rw early h
  ]

  prune_on_tick-AreSince :
      (tick : ℕ) (m : Moment) (s : State host)
      → IsStore lru s.replay
      → tick % prune_every_ticks ≡ 0
      → AreSince
          (m.replay_now - as_secs config.replay.max_age)
          (host.lru.iter (prune_on_tick host config tick m s).replay.inner)
  unfolding prune_on_tick
  prune_on_tick-AreSince tick m s h due =
      rw (due, prune_older_than-iter lru m.replay_now m.writes config.replay.max_age s.replay h)
        (fresh-AreSince _ (host.lru.iter s.replay.inner))

written :
    (w : WriteCalls) (path : FilePath) (disk entries : Entries)
    → write_outcome w path ≡ ok tt
    → (write_cache_file w path disk entries).1 ≡ entries
unfolding write_cache_file
written w path disk entries e = rw (e, write_cache_file) refl

module _ (host : Host) (lru : IsLru host.lru) (f : Float) (l : Lru SourceKey (TokenBucket f))
    (config : DaemonConfig) where
  -- What holds at every look at the flag.
  pub record IsSound (d : Looping host f l config) : Type 0 where
    pub store : IsStore lru d.core.replay
    pub roomy : AreRoomy f l d.limiter.inner

  on_decision-IsSound :
      (m : Moment) (p : CapturedPacket) (x : Decision) (d : Looping host f l config)
      → IsSound d
      → IsSound (on_decision host f l config m p x d)
  unfolding on_decision
  on_decision-IsSound m p pass d h = record {
    store = process_packet-IsStore host lru config m p d.core h.store;
    roomy = h.roomy;
  }
  on_decision-IsSound m p (drop reason) d h = h

  on_received-IsSound :
      (t : Turn) (r : Received) (d : Looping host f l config)
      → IsSound d
      → IsSound (on_received host f l config t r d)
  unfolding on_received
  on_received-IsSound t quiet d h = h
  on_received-IsSound t failed d h = h
  on_received-IsSound t (datagram p) d h = on_decision-IsSound t.handling p _ _ (record {
    store = h.store;
    roomy = check-AreRoomy f l t.limiter_poisoned t.limiter_now p.source_ip d.limiter h.roomy;
  })

  pub round-IsSound :
      (t : Turn) (d : Looping host f l config) → IsSound d → IsSound (round host f l config t d)
  unfolding round
  round-IsSound t d h =
      let served = on_received-IsSound t t.received d h in
      record {
        store = prune_on_tick-IsStore host lru config _ t.pruning _ served.store;
        roomy = served.roomy;
      }

  -- The rounds in a row.
  unfoldable pub rounds : List Turn → Looping host f l config → Looping host f l config
  rounds [] d = d
  rounds (t ∷ ts) d = rounds ts (round host f l config t d)

  pub rounds-IsSound :
      (ts : List Turn) (d : Looping host f l config) → IsSound d → IsSound (rounds ts d)
  unfolding rounds
  rounds-IsSound [] d h = h
  rounds-IsSound (t ∷ ts) d h = rounds-IsSound ts _ (round-IsSound t d h)

  loop-rounds :
      (ts : List Turn) (rest : List Poll) (d : Looping host f l config)
      → loop host f l config (map go ts ++ (shut_down ∷ rest)) d ≡ some (rounds ts d)
  unfolding loop rounds
  loop-rounds [] rest d = refl
  loop-rounds (t ∷ ts) rest d = loop-rounds ts rest (round host f l config t d)

  loop-running :
      (ts : List Turn) (d : Looping host f l config) → loop host f l config (map go ts) d ≡ none
  unfolding loop
  loop-running [] d = refl
  loop-running (t ∷ ts) d = loop-running ts (round host f l config t d)

  -- What `run` has left when it returns.
  pub record IsFinal (last : Moment) (d : Looping host f l config) (s : State host) : Type 0 where
    pub same_cache : s.replay.inner ≡ d.core.replay.inner
    pub saved :
        write_outcome last.writes config.replay.cache_path ≡ ok tt
        → s.replay.disk ≡ host.lru.iter d.core.replay.inner
    pub flushed :
        config.daemon.flush_rules_at_exit ≡ true → s.rules ≡ (host.firewall.flush d.core.rules).0

  flush_if-replay :
      (wanted : Bool) (s : State host) → (flush_if host config wanted s).replay ≡ s.replay
  unfolding flush_if
  flush_if-replay true s = refl
  flush_if-replay false s = refl

  finish-IsFinal :
      (last : Moment) (d : Looping host f l config)
      → IsFinal last d (finish host config last d.core)
  unfolding finish save_to_file flush_if
  finish-IsFinal last d =
      let cleared = flush_if host config config.daemon.flush_rules_at_exit d.core in
      let same = flush_if-replay config.daemon.flush_rules_at_exit d.core in
      record {
        same_cache = ap (λ r. r.inner) same;
        saved = λ e.
            written last.writes config.replay.cache_path _ _ e
            ∙ ap (λ r. host.lru.iter r.inner) same;
        flushed = λ e. rw (e, flush_if) refl;
      }

  -- Where a successful start enters the loop.
  abbrev pub entering : State host → RateLimiter f l → Looping host f l config
  entering s limiter = record { core = s; limiter = limiter; tick = 0 }

  -- Once the firewall is initialised, `run` does not return while the flag is not set, whatever is
  -- received, errors included; at the first look at a set flag it returns `Ok`, with the cache as the
  -- rounds have left it, saved if the calls of the last save go through, and the firewall flushed if
  -- the configuration wants that.
  pub run-ends :
      (ts : List Turn) (rest : List Poll) (last : Moment) (limiter : RateLimiter f l)
      (s s0 : State host)
      → start host config s ≡ (s0, ok tt)
      → (run host f l config (map go ts) last limiter s ≡ none)
        × ((end : State host) × (run host f l config
                (map go ts ++ (shut_down ∷ rest))
                last
                limiter
                s
              ≡ some (end, ok tt))
            × IsFinal last (rounds ts (entering s0 limiter)) end)
  unfolding run run_started after_loop
  run-ends ts rest last limiter s s0 started =
      rw (started, loop-running ts (entering s0 limiter), loop-rounds ts rest (entering s0 limiter))
        (refl, (_, refl, finish-IsFinal last (rounds ts (entering s0 limiter))))

  -- From a well-formed replay cache and a limiter within its bounds, with the laws of the `lru`
  -- crate, both are so at every look of the loop at the flag, whatever was received and whether or
  -- not the saves in between went through.
  pub loop-IsSound :
      (polls : List Poll) (d d' : Looping host f l config)
      → IsSound d
      → loop host f l config polls d ≡ some d'
      → IsSound d'
  unfolding loop
  loop-IsSound [] d d' h went = absurd (cc)
  loop-IsSound (shut_down ∷ polls) d d' h went = subst IsSound (some-eq went) h
  loop-IsSound (go t ∷ polls) d d' h went = loop-IsSound polls _ d' (round-IsSound t d h) went

  on_decision-tick :
      (m : Moment) (p : CapturedPacket) (x : Decision) (d : Looping host f l config)
      → (on_decision host f l config m p x d).tick ≡ d.tick
  unfolding on_decision
  on_decision-tick m p pass d = refl
  on_decision-tick m p (drop reason) d = refl

  on_received-tick :
      (t : Turn) (r : Received) (d : Looping host f l config)
      → (on_received host f l config t r d).tick ≡ d.tick
  unfolding on_received
  on_received-tick t quiet d = refl
  on_received-tick t failed d = refl
  on_received-tick t (datagram p) d = on_decision-tick t.handling p _ _

  round-tick :
      (t : Turn) (d : Looping host f l config) → (round host f l config t d).tick ≡ next_tick d.tick
  unfolding round
  round-tick t d = ap next_tick (on_received-tick t t.received d)

  -- No entry of the cache is older than the limit at the time of the round's prune.
  abbrev pub IsPruned : Turn → Looping host f l config → Type 0
  IsPruned t d =
      AreSince (t.pruning.replay_now - as_secs config.replay.max_age)
        (host.lru.iter d.core.replay.inner)

  round-IsPruned :
      (t : Turn) (d : Looping host f l config)
      → IsSound d
      → next_tick d.tick % prune_every_ticks ≡ 0
      → IsPruned t (round host f l config t d)
  unfolding round
  round-IsPruned t d h due =
      prune_on_tick-AreSince host lru config _ t.pruning _
        (on_received-IsSound t t.received d h).store
        (ap (λ n. next_tick n % prune_every_ticks) (on_received-tick t t.received d) ∙ due)

  -- A round after `i` others in which the cache is pruned.
  pub data PrunedIn (d : Looping host f l config) : List Turn → Type 0 where
    pruned :
        (before : List Turn) (t : Turn) (rest : List Turn)
        → IsPruned t (round host f l config t (rounds before d))
        → PrunedIn d (before ++ (t ∷ rest))

  later :
      {t : Turn} {d : Looping host f l config} {ts : List Turn}
      → PrunedIn (round host f l config t d) ts
      → PrunedIn d (t ∷ ts)
  unfolding rounds
  later {t = s} (pruned before t rest p) = pruned (s ∷ before) t rest p

  prunes_in :
      (left : ℕ) (ts : List Turn) (d : Looping host f l config)
      → IsSound d
      → suc left ≤ length ts
      → d.tick + suc left < 2 ^ 64
      → (d.tick + suc left) % prune_every_ticks ≡ 0
      → PrunedIn d ts
  unfolding rounds
  prunes_in zero (t ∷ ts) d h long small due =
      pruned [] t ts (round-IsPruned t d h (omega (arith, due, small)))
  prunes_in (suc left) (t ∷ ts) d h long small due =
      let one = round-tick t d in
      later (
        prunes_in left ts (round host f l config t d) (round-IsSound t d h) (omega arith)
          (omega (arith, one, small)) (omega (arith, one, small, due)))
  prunes_in left [] d h long small due = absurd (omega arith)

  -- With the laws of the `lru` crate, from a well-formed state whose counter is not about to wrap,
  -- 600 rounds of the loop do not pass without one that leaves no entry in the cache older than
  -- `max_age`, whatever is received.
  pub rounds-PrunedIn :
      (ts : List Turn) (d : Looping host f l config)
      → IsSound d
      → prune_every_ticks ≤ length ts
      → d.tick + prune_every_ticks < 2 ^ 64
      → PrunedIn d ts
  rounds-PrunedIn ts d h long small =
      prunes_in (prune_every_ticks - 1 - d.tick % prune_every_ticks) ts d h (omega arith)
        (omega arith) (omega arith)
