-- ===== src/Daemon/Run.antt =====
-- The main loop of one process: crates/fwknox-daemon/src/run.rs and shutdown.rs. What the system
-- gives to each round of the loop is a value: the flag, the datagram or its absence, the clocks, and
-- the outcome of the calls that write the cache file. Logging and the messages to systemd are left
-- out.
use fwknox.Base.{
  ℕ, suc, ◌%◌, ◌^◌, Bool, Option, none, some, List, [], ◌∷◌, nat_beq, Result, ok, err,
  if◌then◌else◌, nat_eq, list_eq,
}
use fwknox.Base.Lru.{Lru}
use fwknox.Config.Types.{DaemonConfig}
use fwknox.Replay.Cache.{prune_older_than, save_to_file}
use fwknox.Firewall.Backend.{FirewallError}
use fwknox.RateLimit.Key.{SourceKey}
use fwknox.RateLimit.Bucket.{Float, TokenBucket}
use fwknox.RateLimit.Limiter.{Decision, pass, drop, RateLimiter, check}
use fwknox.Daemon.Host.{Host, State, Moment, CapturedPacket}
use fwknox.Daemon.Pipeline.{DaemonError, firewall, process_packet}

abbrev pub prune_every_ticks : ℕ
prune_every_ticks = 600

-- What `recv_timeout` gives.
pub data Received : Type 0 where
  quiet failed : Received
  datagram : CapturedPacket → Received

-- One round: what is received, what the limiter reads when it is called, and what the system shows
-- while the packet is handled and while the cache is pruned.
pub record Turn : Type 0 where
  pub received : Received
  pub limiter_now : ℕ
  pub limiter_poisoned : Bool
  pub handling : Moment
  pub pruning : Moment

-- A look at the flag: it is set, or the round is gone through.
pub data Poll : Type 0 where
  shut_down : Poll
  go : Turn → Poll

-- `wrapping_add(1)` on a `u64`.
abbrev pub next_tick : ℕ → ℕ
next_tick n = suc n % 2 ^ 64

module _ (host : Host) (config : DaemonConfig) where
  -- The end of a round, with the counter already increased.
  unfoldable pub prune_on_tick : (tick : ℕ) → Moment → State host → State host
  prune_on_tick tick m s =
      if nat_beq (tick % prune_every_ticks) 0
      then record s {
        replay = (prune_older_than host.lru m.replay_now m.writes config.replay.max_age s.replay).0;
      }
      else s

  -- A failed flush is logged.
  unfoldable pub flush_if : Bool → State host → State host
  flush_if wanted s = if wanted then record s { rules = (host.firewall.flush s.rules).0 } else s

  -- Up to the loop.
  unfoldable pub start : State host → State host × Result FirewallError (Unit {0})
  start s =
      let cleared = flush_if config.daemon.flush_rules_at_init s in
      let (rules, r) = host.firewall.init cleared.rules in (record cleared { rules = rules }, r)

  -- From the loop on.
  unfoldable pub finish : Moment → State host → State host
  finish m s =
      let cleared = flush_if config.daemon.flush_rules_at_exit s in
      record cleared {
        replay = (save_to_file host.lru m.writes config.replay.cache_path cleared.replay).0;
      }

module _ (host : Host) (f : Float) (l : Lru SourceKey (TokenBucket f)) (config : DaemonConfig) where
  -- What the loop keeps.
  pub record Looping : Type 0 where
    pub core : State host
    pub limiter : RateLimiter f l
    pub tick : ℕ

  -- `handle_packet` only logs what `process_packet` returns.
  unfoldable pub on_decision : Moment → CapturedPacket → Decision → Looping → Looping
  on_decision m pkt pass d = record d { core = (process_packet host m config pkt d.core).0 }
  on_decision m pkt (drop reason) d = d

  unfoldable pub on_received : Turn → Received → Looping → Looping
  on_received t quiet d = d
  on_received t failed d = d
  on_received t (datagram pkt) d =
      let (limiter, decision) =
        check f l t.limiter_poisoned t.limiter_now pkt.source_ip d.limiter in
      on_decision t.handling pkt decision (record d { limiter = limiter })

  unfoldable pub round : Turn → Looping → Looping
  round t d =
      let served = on_received t t.received d in
      let tick = next_tick served.tick in
      record served { tick = tick; core = prune_on_tick host config tick t.pruning served.core }

  -- `none` as long as the flag has not been seen.
  unfoldable pub loop : List Poll → Looping → Option Looping
  loop [] d = none
  loop (shut_down ∷ polls) d = some d
  loop (go t ∷ polls) d = loop polls (round t d)

  abbrev pub Ended : Type 0
  Ended = State host × Result DaemonError (Unit {0})

  unfoldable pub after_loop : Moment → Option Looping → Option Ended
  after_loop last none = none
  after_loop last (some d) = some (finish host config last d.core, ok tt)

  unfoldable pub run_started :
      List Poll
      → Moment
      → RateLimiter f l
      → State host × Result FirewallError (Unit {0})
      → Option Ended
  run_started polls last limiter (s, err e) = some (s, err (firewall e))
  run_started polls last limiter (s, ok u) =
      after_loop last (loop polls (record { core = s; limiter = limiter; tick = 0 }))

  -- `run`: what it leaves and returns, once it returns.
  unfoldable pub run : List Poll → Moment → RateLimiter f l → State host → Option Ended
  run polls last limiter s = run_started polls last limiter (start host config s)
