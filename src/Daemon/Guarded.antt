-- ===== src/Daemon/Guarded.antt =====
-- A packet does not open the firewall twice, however the main loop prunes the replay cache.
use fwknox.Base.{
  ℕ, ◌+◌, ◌≡◌, ◌<◌, ◌≤◌, refl, ap, sym, subst, ◌∙◌, true, false, List, [], ◌∷◌, arith, ok, nat_eq,
  list_eq, String,
}
use fwknox.Base.Int.{ℤ, IsI64, i64_half}
use fwknox.Base.Assoc.{is_some-lookup_of_take}
use fwknox.Base.Lru.{Lru, IsLru}
use fwknox.Proto.Types.{Bytes, SpaPayload}
use fwknox.Proto.Freshness.{IsFresh}
use fwknox.Config.Types.{as_secs, DaemonConfig}
use fwknox.Config.Valid.{AreUsable}
use fwknox.Replay.Cache.{Nonce, check_and_insert}
use fwknox.Replay.Check.{IsStore, check_old}
use fwknox.Replay.Window.{after, check_and_insert-Change, check_and_insert-IsStore}
use fwknox.Replay.Held.{Held, accepted-Held}
use fwknox.RateLimit.Key.{SourceKey}
use fwknox.RateLimit.Bucket.{Float, TokenBucket}
use fwknox.RateLimit.Limiter.{pass, check}
use fwknox.Firewall.Backend.{RuleHandle}
use fwknox.Daemon.Host.{Host, State, Moment, CapturedPacket}
use fwknox.Daemon.Pipeline.{Request, installed, process_packet}
use fwknox.Daemon.Again.{authenticate-payload, installed-accepted, replayed-rules}
use fwknox.Daemon.Fresh.{authenticate-IsFresh}
use fwknox.Daemon.Run.{datagram, Turn, prune_on_tick, Looping, on_decision, on_received, round}
use fwknox.Daemon.Loop.{rounds}
use fwknox.Daemon.Keeps.{datagrams, ArePrunedBy, Keeps, prune-Keeps, rounds-Keeps}

-- Two readings of the clock that admit one timestamp are no further apart than the window is wide.
window :
    (now now' age : ℕ) (timestamp : ℤ)
    → IsFresh now age 30 timestamp
    → IsFresh now' age 30 timestamp
    → now' ≤ now + 30 + age
window now now' age timestamp one other = omega (arith, one.not_ahead, other.not_behind)

-- The daemon's clocks and limits, and timestamps of 64 bits: every number of seconds is in range, the
-- replay cache reads the clock after the first handling has, and a nonce is kept for longer than its
-- packet can be accepted.
pub record IsTimed (host : Host) (config : DaemonConfig) (m m' : Moment) : Type 0 where
  pub typed :
      (b : Bytes) (payload : SpaPayload)
      → host.crypto.from_slice b ≡ ok payload
      → IsI64 payload.timestamp
  pub clock : m.unix + 30 < i64_half
  pub clock' : m'.unix + 30 < i64_half
  pub limit : as_secs config.daemon.max_spa_packet_age < i64_half
  pub kept_longer : as_secs config.daemon.max_spa_packet_age + 30 ≤ as_secs config.replay.max_age
  pub read_later : m.unix ≤ m.replay_now

module _ (host : Host) (lru : IsLru host.lru) where
  -- A nonce that is held is refused.
  pub Held-refused :
      (m : Moment) (n : Nonce) (j x : ℕ) (s : State host)
      → Held lru j n x s.replay
      → (check_and_insert host.lru m.replay_now m.writes n s.replay).1 ≡ ok false
  Held-refused m n j x s held =
      ap (λ r. r.1)
        (check_old lru m.replay_now m.writes n s.replay (
          lru.contains-iter n s.replay.inner
          ∙ is_some-lookup_of_take n j (host.lru.iter s.replay.inner) held.among))

module _ (host : Host) (lru : IsLru host.lru) (f : Float) (l : Lru SourceKey (TokenBucket f))
    (config : DaemonConfig) where
  accepted-Keeps :
      (m : Moment) (p : CapturedPacket) (r : Request) (s : State host)
      → IsStore lru s.replay
      → (check_and_insert host.lru m.replay_now m.writes r.payload.nonce s.replay).1 ≡ ok true
      → (process_packet host m config p s).0.replay
        ≡ after lru m.replay_now m.writes r.payload.nonce s.replay
      → Keeps host lru config r.payload.nonce m.replay_now
          (host.lru.cap s.replay.inner)
          1
          (process_packet host m config p s).0
  unfolding after
  accepted-Keeps m p r s store accepted replay = record {
    store =
        rw replay
          (check_and_insert-IsStore lru m.replay_now m.writes r.payload.nonce s.replay store);
    size = rw replay (check_and_insert-Change lru m.replay_now m.writes r.payload.nonce s.replay).1;
    held =
        rw replay (accepted-Held lru m.replay_now m.writes r.payload.nonce s.replay store accepted);
  }

  -- A packet that passes the limiter is handled in its round, and then the cache may be pruned.
  received-core :
      (t : Turn) (p : CapturedPacket) (d : Looping host f l config)
      → (check f l t.limiter_poisoned t.limiter_now p.source_ip d.limiter).1 ≡ pass
      → (on_received host f l config t (datagram p) d).core
        ≡ (process_packet host t.handling config p d.core).0
  unfolding on_received on_decision
  received-core t p d passed = rw passed refl

  round-core :
      (t : Turn) (p : CapturedPacket) (d : Looping host f l config)
      → t.received ≡ datagram p
      → (check f l t.limiter_poisoned t.limiter_now p.source_ip d.limiter).1 ≡ pass
      → (round host f l config t d).core
        ≡ prune_on_tick host config
            (round host f l config t d).tick
            t.pruning
            (process_packet host t.handling config p d.core).0
  unfolding round
  round-core t p d got passed =
      ap (prune_on_tick host config _ t.pruning)
        (ap (λ r. (on_received host f l config t r d).core) got ∙ received-core t p d passed)

  -- Under a list of stanzas that `validate` accepts and a well-formed replay cache, with the laws of
  -- the `lru` crate, timestamps of 64 bits from the codec, clocks and the maximal age in range, a
  -- `replay.max_age` of at least the maximal age and 30 seconds, and a cache that reads its clock no
  -- earlier than the freshness check: once a round of the main loop has let a packet past the limiter
  -- and opened the firewall for it, handling the same datagram again, from any address and after any
  -- further rounds, leaves the firewall as it is, although rounds prune the cache, as long as no prune
  -- has read a clock ahead of that of the second handling and the datagrams in between are fewer than
  -- the places of the cache.
  pub rounds-once :
      (t : Turn) (p p' : CapturedPacket) (ts : List Turn) (m' : Moment)
      (d : Looping host f l config) {name : String} {h : RuleHandle}
      → AreUsable [] config.access
      → IsTimed host config t.handling m'
      → IsStore lru d.core.replay
      → t.received ≡ datagram p
      → (check f l t.limiter_poisoned t.limiter_now p.source_ip d.limiter).1 ≡ pass
      → (process_packet host t.handling config p d.core).1 ≡ ok (installed name h)
      → p'.datagram ≡ p.datagram
      → ArePrunedBy m'.unix (t ∷ ts)
      → datagrams ts < host.lru.cap d.core.replay.inner
      → let s = (rounds host lru f l config ts (round host f l config t d)).core in
        (process_packet host m' config p' s).0.rules ≡ s.rules
  rounds-once t p p' ts m' d usable timed store got passed done same before few =
      let m = t.handling in
      let (r, asked, accepted, replay) =
        installed-accepted host lru config m p d.core usable done in
      let s = (rounds host lru f l config ts (round host f l config t d)).core in
      let (_, fresh) =
        authenticate-IsFresh host lru config m p usable timed.clock timed.limit timed.typed asked in
      replayed-rules host lru config m' p' s (λ r' asked'.
        let payload = authenticate-payload host lru config m m' p p' same asked asked' in
        let (_, fresh') =
          authenticate-IsFresh host lru config m' p' usable timed.clock' timed.limit timed.typed
            asked' in
        let apart =
          window m.unix m'.unix (as_secs config.daemon.max_spa_packet_age) r.payload.timestamp fresh
            (subst (λ q. IsFresh m'.unix (as_secs config.daemon.max_spa_packet_age) 30 q.timestamp)
              (sym payload) fresh') in
        let young : m'.unix ≤ m.replay_now + as_secs config.replay.max_age =
          omega (arith, apart, timed.kept_longer, timed.read_later) in
        let c = host.lru.cap d.core.replay.inner in
        let opened =
          subst (Keeps host lru config r.payload.nonce m.replay_now c 1)
            (sym (round-core t p d got passed))
            (prune-Keeps host lru config r.payload.nonce m.replay_now c
              (round host f l config t d).tick t.pruning 1 _ (ground arith)
              (accepted-Keeps m p r d.core store accepted replay)) in
        let (j, k) =
          rounds-Keeps host lru config r.payload.nonce m.replay_now c f l m'.unix ts 1
            (round host f l config t d) (omega arith) (ground arith) young opened in
        ap (λ q. (check_and_insert host.lru m'.replay_now m'.writes q.nonce s.replay).1)
          (sym payload)
        ∙ Held-refused host lru m' r.payload.nonce j m.replay_now s k.held)
