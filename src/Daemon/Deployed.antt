-- ===== src/Daemon/Deployed.antt =====
-- The program from its start: what the theorems on packets say of a daemon that has got to its loop.
use fwknox.Base.{
  ℕ, ◌≡◌, ◌<◌, refl, ap, sym, subst, ◌∙◌, Bool, true, false, Option, List, [], ◌∷◌, ok, String,
  nat_beq, ◌%◌, arith, nat_eq, list_eq, Bool-cases, Result-cases, inl, inr,
}
use fwknox.Base.Text.{Text}
use fwknox.Base.Lru.{Lru, IsLru}
use fwknox.Config.Types.{DaemonConfig}
use fwknox.Replay.Cache.{Store}
use fwknox.Replay.Check.{IsStore}
use fwknox.RateLimit.Key.{SourceKey}
use fwknox.RateLimit.Bucket.{Float, TokenBucket}
use fwknox.RateLimit.Limiter.{with_clock, check, Decision, pass, drop}
use fwknox.Replay.Window.{after, check_and_insert-Change}
use fwknox.Replay.Kept.{cap-prune_older_than}
use fwknox.Daemon.Steps.{process_stop, process_go}
use fwknox.Firewall.Backend.{RuleHandle}
use fwknox.Sandbox.System.{System}
use fwknox.Workers.Ipc.{Codec}
use fwknox.Daemon.Privsep.{CryptoMsg}
use fwknox.Daemon.Host.{Host, State, Moment, CapturedPacket}
use fwknox.Daemon.Pipeline.{authenticate, installed, process_packet}
use fwknox.Daemon.Run.{
  Received, quiet, failed, datagram, Turn, Looping, flush_if, start, round, prune_on_tick,
  prune_every_ticks, on_decision, on_received,
}
use fwknox.Daemon.Loop.{IsSound, rounds, rounds-IsSound, entering}
use fwknox.Daemon.Keeps.{datagrams, ArePrunedBy}
use fwknox.Daemon.Guarded.{IsTimed, rounds-once}
use fwknox.Daemon.Boot.{Launch, loaded_capacity, Served, booted}
use fwknox.Daemon.Ready.{IsReady}

module _ (host : Host) (config : DaemonConfig) where
  flush_if-keeps :
      (wanted : Bool) (s : State host) → (flush_if host config wanted s).replay ≡ s.replay
  unfolding flush_if
  flush_if-keeps true s = refl
  flush_if-keeps false s = refl

  start-keeps : (s : State host) → (start host config s).0.replay ≡ s.replay
  unfolding start
  start-keeps s = flush_if-keeps config.daemon.flush_rules_at_init s

module _ (host : Host) (lru : IsLru host.lru) (config : DaemonConfig) (c : ℕ) where
  -- The replay cache has so many places.
  abbrev IsSized : State host → Type 0
  IsSized s = host.lru.cap s.replay.inner ≡ c

  packet-IsSized :
      (m : Moment) (p : CapturedPacket) (s : State host)
      → IsSized s
      → IsSized (process_packet host m config p s).0
  unfolding after
  packet-IsSized m p s h = elim (Result-cases (authenticate host m config p)) [
    | inr (out, e) ↦ rw (process_stop host m config p s e) h
    | inl (r, e) ↦
        rw (process_go host m config p s e)
          ((check_and_insert-Change lru m.replay_now m.writes r.payload.nonce s.replay).1 ∙ h)
  ]

  prune-IsSized :
      (tick : ℕ) (m : Moment) (s : State host)
      → IsSized s
      → IsSized (prune_on_tick host config tick m s)
  unfolding prune_on_tick
  prune-IsSized tick m s h = elim (Bool-cases (nat_beq (tick % prune_every_ticks) 0)) [
    | inl due ↦
        rw due (cap-prune_older_than lru m.replay_now m.writes config.replay.max_age s.replay ∙ h)
    | inr early ↦ rw early h
  ]

  module _ (f : Float) (l : Lru SourceKey (TokenBucket f)) where
    decision-IsSized :
        (m : Moment) (p : CapturedPacket) (x : Decision) (d : Looping host f l config)
        → IsSized d.core
        → IsSized (on_decision host f l config m p x d).core
    unfolding on_decision
    decision-IsSized m p pass d h = packet-IsSized m p d.core h
    decision-IsSized m p (drop reason) d h = h

    received-IsSized :
        (t : Turn) (r : Received) (d : Looping host f l config)
        → IsSized d.core
        → IsSized (on_received host f l config t r d).core
    unfolding on_received
    received-IsSized t quiet d h = h
    received-IsSized t failed d h = h
    received-IsSized t (datagram p) d h = decision-IsSized t.handling p _ _ h

    rounds-IsSized :
        (ts : List Turn) (d : Looping host f l config)
        → IsSized d.core
        → IsSized (rounds host lru f l config ts d).core
    unfolding rounds round
    rounds-IsSized [] d h = h
    rounds-IsSized (t ∷ ts) d h =
        rounds-IsSized ts (round host f l config t d)
          (prune-IsSized _ t.pruning _ (received-IsSized t t.received d h))

module _ (sys : System) (host : Host) (lru : IsLru host.lru) (new_backend : host.firewall.State)
    (f : Float) (l : Lru SourceKey (TokenBucket f)) (c : Codec CryptoMsg)
    (from_str : Text → Option DaemonConfig) where
  -- With the laws of the `lru` crate: a `fwknoxd` that has got to its loop in one process does not
  -- open the firewall twice for one datagram. After any rounds, let a round let a packet past the
  -- limiter and open the firewall for it; then handling the same datagram again, from any address and
  -- after any further rounds, leaves the firewall as it is. This is so where timestamps from the codec
  -- are of 64 bits, the clocks and the maximal age are in range, `replay.max_age` is at least the maximal
  -- age and 30 seconds, the cache reads its clock no earlier than the freshness check, no prune since
  -- the first handling has read a clock ahead of that of the second, and the datagrams in between are
  -- fewer than the places of the cache: those of the configuration if there was no cache file at the
  -- start, else 10,000.
  pub deployed-once :
      (launch : Launch) {served : Served sys host new_backend f l c from_str}
      (config : DaemonConfig) (store : Store host.lru) (s0 : State host) (earlier : List Turn)
      (t : Turn) (p p' : CapturedPacket) (ts : List Turn) (m' : Moment) {name : String}
      {h : RuleHandle}
      → IsReady sys host lru new_backend f l c from_str launch served config store
      → start host config (booted sys host new_backend f l c from_str store) ≡ (s0, ok tt)
      → IsTimed host config t.handling m'
      → let d =
          rounds host lru f l config earlier (
            entering host lru f l config s0
              (with_clock f l config.rate_limit launch.limiter_now)) in
        t.received ≡ datagram p
        → (check f l t.limiter_poisoned t.limiter_now p.source_ip d.limiter).1 ≡ pass
        → (process_packet host t.handling config p d.core).1 ≡ ok (installed name h)
        → p'.datagram ≡ p.datagram
        → ArePrunedBy m'.unix (t ∷ ts)
        → datagrams ts < loaded_capacity launch config
        → let s = (rounds host lru f l config ts (round host f l config t d)).core in
          (process_packet host m' config p' s).0.rules ≡ s.rules
  deployed-once launch config store s0 earlier t p p' ts m' ready started timed got passed done same
        before few =
      let d0 =
        entering host lru f l config s0 (with_clock f l config.rate_limit launch.limiter_now) in
      let d = rounds host lru f l config earlier d0 in
      let kept : s0.replay ≡ store =
        sym (ap (λ x. x.0.replay) started)
        ∙ start-keeps host config (booted sys host new_backend f l c from_str store) in
      let entered : IsSound host lru f l config d0 = record {
        store = subst (IsStore lru) (sym kept) ready.sound.store;
        roomy = ready.sound.roomy;
      } in
      let sized =
        rounds-IsSized host lru config (loaded_capacity launch config) f l earlier d0
          (ap (λ x. host.lru.cap x.inner) kept ∙ ready.capacity) in
      rounds-once host lru f l config t p p' ts m' d ready.valid.stanzas timed
        (rounds-IsSound host lru f l config earlier d0 entered).store got passed done same before
        (omega (arith, sized, few))
