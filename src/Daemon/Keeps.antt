-- ===== src/Daemon/Keeps.antt =====
-- What rounds of the main loop keep of a nonce in the replay cache.
use fwknox.Base.{
  ℕ, suc, ◌+◌, ◌%◌, ◌≡◌, ◌<◌, ◌≤◌, refl, ◌∙◌, true, List, [], ◌∷◌, arith, all, leb, nat_beq, nat_eq,
  list_eq, Bool-cases, Result-cases, inl, inr,
}
use fwknox.Base.Lru.{Lru, IsLru}
use fwknox.Config.Types.{as_secs, DaemonConfig}
use fwknox.Replay.Cache.{Nonce}
use fwknox.Replay.Check.{IsStore}
use fwknox.Replay.Window.{after, check_and_insert-Change, check_and_insert-IsStore}
use fwknox.Replay.Kept.{cap-prune_older_than, prune_older_than-IsStore}
use fwknox.Replay.Held.{Held, check_and_insert-Held, prune_older_than-Held, later-Held}
use fwknox.RateLimit.Key.{SourceKey}
use fwknox.RateLimit.Bucket.{Float, TokenBucket}
use fwknox.RateLimit.Limiter.{Decision, pass, drop}
use fwknox.Daemon.Host.{Host, State, Moment, CapturedPacket}
use fwknox.Daemon.Pipeline.{authenticate, process_packet}
use fwknox.Daemon.Steps.{process_stop, process_go}
use fwknox.Daemon.Run.{
  Received, quiet, failed, datagram, Turn, prune_every_ticks, prune_on_tick, Looping, on_decision,
  on_received, round,
}
use fwknox.Daemon.Loop.{rounds}

-- One more, where something is received.
unfoldable pub counted : Received → ℕ → ℕ
counted quiet j = j
counted failed j = j
counted (datagram p) j = suc j

counted-add : (r : Received) (j k : ℕ) → counted r j + k ≡ j + counted r k
unfolding counted
counted-add quiet j k = refl
counted-add failed j k = refl
counted-add (datagram p) j k = omega arith

-- The rounds that receive a datagram.
unfoldable pub datagrams : List Turn → ℕ
datagrams [] = 0
datagrams (t ∷ ts) = counted t.received (datagrams ts)

-- No prune reads a later clock.
abbrev pub ArePrunedBy : ℕ → List Turn → Type 0
ArePrunedBy time ts = all (λ t. leb t.pruning.replay_now time) ts ≡ true

module _ (host : Host) (lru : IsLru host.lru) (config : DaemonConfig) (n : Nonce) (x c : ℕ) where
  -- A well-formed cache of `c` places that holds the nonce, stamped `x`, among its `j` most recent
  -- entries.
  pub record Keeps (j : ℕ) (s : State host) : Type 0 where
    pub store : IsStore lru s.replay
    pub size : host.lru.cap s.replay.inner ≡ c
    pub held : Held lru j n x s.replay

  packet-Keeps :
      (m : Moment) (p : CapturedPacket) (j : ℕ) (s : State host)
      → j < c
      → Keeps j s
      → Keeps (suc j) (process_packet host m config p s).0
  unfolding after
  packet-Keeps m p j s lt k = elim (Result-cases (authenticate host m config p)) [
    | inr (out, e) ↦
        rw (process_stop host m config p s e)
          (record { store = k.store; size = k.size; held = later-Held lru j n x s.replay k.held })
    | inl (r, e) ↦ rw (process_go host m config p s e) (record {
      store = check_and_insert-IsStore lru m.replay_now m.writes r.payload.nonce s.replay k.store;
      size =
          (check_and_insert-Change lru m.replay_now m.writes r.payload.nonce s.replay).1 ∙ k.size;
      held =
          check_and_insert-Held lru m.replay_now m.writes r.payload.nonce n j x s.replay k.store
            (omega (arith, k.size)) k.held;
    })
  ]

  pub prune-Keeps :
      (tick : ℕ) (m : Moment) (j : ℕ) (s : State host)
      → m.replay_now ≤ x + as_secs config.replay.max_age
      → Keeps j s
      → Keeps j (prune_on_tick host config tick m s)
  unfolding prune_on_tick
  prune-Keeps tick m j s young k = elim (Bool-cases (nat_beq (tick % prune_every_ticks) 0)) [
    | inl due ↦ rw due (record {
      store =
          prune_older_than-IsStore lru m.replay_now m.writes config.replay.max_age s.replay k.store;
      size = cap-prune_older_than lru m.replay_now m.writes config.replay.max_age s.replay ∙ k.size;
      held =
          prune_older_than-Held lru m.replay_now m.writes config.replay.max_age n j x s.replay
            k.store young k.held;
    })
    | inr early ↦ rw early k
  ]

  module _ (f : Float) (l : Lru SourceKey (TokenBucket f)) where
    decision-Keeps :
        (m : Moment) (p : CapturedPacket) (v : Decision) (j : ℕ) (d : Looping host f l config)
        → j < c
        → Keeps j d.core
        → Keeps (suc j) (on_decision host f l config m p v d).core
    unfolding on_decision
    decision-Keeps m p pass j d lt k = packet-Keeps m p j d.core lt k
    decision-Keeps m p (drop reason) j d lt k = record {
      store = k.store;
      size = k.size;
      held = later-Held lru j n x d.core.replay k.held;
    }

    received-Keeps :
        (t : Turn) (r : Received) (j : ℕ) (d : Looping host f l config)
        → counted r j ≤ c
        → Keeps j d.core
        → Keeps (counted r j) (on_received host f l config t r d).core
    unfolding on_received counted
    received-Keeps t quiet j d le k = k
    received-Keeps t failed j d le k = k
    received-Keeps t (datagram p) j d le k = decision-Keeps t.handling p _ j _ (omega arith) k

    pub rounds-Keeps :
        (time : ℕ) (ts : List Turn) (j : ℕ) (d : Looping host f l config)
        → j + datagrams ts ≤ c
        → ArePrunedBy time ts
        → time ≤ x + as_secs config.replay.max_age
        → Keeps j d.core
        → (i : ℕ) × Keeps i (rounds host lru f l config ts d).core
    unfolding datagrams rounds round
    rounds-Keeps time [] j d le before young k = (j, k)
    rounds-Keeps time (t ∷ ts) j d le before young k =
        let soon : t.pruning.replay_now ≤ time = ground arith in
        let more = counted-add t.received j (datagrams ts) in
        rounds-Keeps time ts (counted t.received j) (round host f l config t d) (omega arith)
          (ground arith) young
          (prune-Keeps _ t.pruning (counted t.received j) _ (omega arith)
            (received-Keeps t t.received j d (omega arith) k))
