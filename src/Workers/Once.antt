-- ===== src/Workers/Once.antt =====
-- The parent's loop against a replay: what its rounds keep of a nonce that was served.
use fwknox.Base.{
  ℕ, suc, ◌+◌, ◌≡◌, ◌≢◌, ◌<◌, ◌≤◌, refl, ap, sym, subst, ◌∙◌, true, List, [], ◌∷◌, arith, all, leb,
  ◌%◌, nat_beq, Bool-cases, inl, inr, Result, ok, err, String, nat_eq, list_eq,
}
use fwknox.Base.Lru.{IsLru}
use fwknox.Proto.Types.{IpAddr, SpaPayload}
use fwknox.Config.Types.{as_secs, DaemonConfig}
use fwknox.Replay.Cache.{Nonce, check_and_insert}
use fwknox.Replay.Check.{IsStore}
use fwknox.Replay.Window.{after, check_and_insert-Change, check_and_insert-IsStore}
use fwknox.Replay.Held.{check_and_insert-Held, accepted-Held}
use fwknox.Daemon.Host.{Host, State, Moment}
use fwknox.Daemon.Privsep.{
  CryptoMsg, valid_request, rejected_request, no_match_msg, handle_crypto_msg,
}
use fwknox.Daemon.Serve.{handle-accepted, handle-refused}
use fwknox.Daemon.Run.{next_tick, prune_every_ticks, prune_on_tick}
use fwknox.Daemon.Keeps.{Keeps, prune-Keeps}
use fwknox.Daemon.Guarded.{Held-refused}
use fwknox.Workers.Ipc.{PrivsepError, Codec, recv_msg}
use fwknox.Workers.Parent.{ParentTurn, Serving, on_crypto_msg, parent_round}
use fwknox.Workers.FailClosed.{parent_rounds}

-- One more, where a request is received.
unfoldable pub counted : Result PrivsepError CryptoMsg → ℕ → ℕ
counted (ok (valid_request name ip payload)) k = suc k
counted (ok (rejected_request ip reason)) k = k
counted (ok (no_match_msg ip)) k = k
counted (err e) k = k

counted-add : (r : Result PrivsepError CryptoMsg) (j k : ℕ) → counted r j + k ≡ j + counted r k
unfolding counted
counted-add (ok (valid_request name ip payload)) j k = omega arith
counted-add (ok (rejected_request ip reason)) j k = refl
counted-add (ok (no_match_msg ip)) j k = refl
counted-add (err e) j k = refl

-- The rounds that receive a request.
unfoldable pub requests : Codec CryptoMsg → List ParentTurn → ℕ
requests c [] = 0
requests c (t ∷ ts) = counted (recv_msg c t.recv) (requests c ts)

-- No prune reads a later clock.
abbrev pub ArePrunedBy : ℕ → List ParentTurn → Type 0
ArePrunedBy time ts = all (λ t. leb t.pruning.replay_now time) ts ≡ true

module _ (host : Host) (lru : IsLru host.lru) (config : DaemonConfig) (c : Codec CryptoMsg)
    (n : Nonce) (x size : ℕ) where
  abbrev Keeping : ℕ → State host → Type 0
  Keeping = Keeps host lru config n x size

  received-Keeps :
      (m : Moment) (r : Result PrivsepError CryptoMsg) (j : ℕ) (s : State host)
      → counted r j ≤ size
      → Keeping j s
      → Keeping (counted r j) (on_crypto_msg host config c m r s)
  unfolding on_crypto_msg handle_crypto_msg counted after
  received-Keeps m (ok (valid_request name ip payload)) j s le k = record {
    store = check_and_insert-IsStore lru m.replay_now m.writes payload.nonce s.replay k.store;
    size = (check_and_insert-Change lru m.replay_now m.writes payload.nonce s.replay).1 ∙ k.size;
    held =
        check_and_insert-Held lru m.replay_now m.writes payload.nonce n j x s.replay k.store
          (omega (arith, k.size)) k.held;
  }
  received-Keeps m (ok (rejected_request ip reason)) j s le k = k
  received-Keeps m (ok (no_match_msg ip)) j s le k = k
  received-Keeps m (err e) j s le k = k

  rounds-Keeps :
      (time : ℕ) (ts : List ParentTurn) (j : ℕ) (d : Serving host config c)
      → j + requests c ts ≤ size
      → ArePrunedBy time ts
      → time ≤ x + as_secs config.replay.max_age
      → Keeping j d.core
      → (i : ℕ) × Keeping i (parent_rounds host config c ts d).core
  unfolding requests parent_rounds parent_round
  rounds-Keeps time [] j d le before young k = (j, k)
  rounds-Keeps time (t ∷ ts) j d le before young k =
      let soon : t.pruning.replay_now ≤ time = ground arith in
      let r = recv_msg c t.recv in
      let more = counted-add r j (requests c ts) in
      rounds-Keeps time ts (counted r j) (parent_round host config c t d) (omega arith)
        (ground arith) young
        (prune-Keeps host lru config n x size _ t.pruning (counted r j) _ (omega arith)
          (received-Keeps t.handling r j d.core (omega arith) k))

module _ (host : Host) (lru : IsLru host.lru) (config : DaemonConfig) (c : Codec CryptoMsg) where
  -- A request that is accepted puts its nonce first.
  served-Keeps :
      (m : Moment) (name : String) (ip : IpAddr) (p : SpaPayload) (s : State host)
      → IsStore lru s.replay
      → (check_and_insert host.lru m.replay_now m.writes p.nonce s.replay).1 ≡ ok true
      → Keeps host lru config p.nonce m.replay_now
          (host.lru.cap s.replay.inner)
          1
          (handle_crypto_msg host m (valid_request name ip p) config s)
  unfolding handle_crypto_msg after
  served-Keeps m name ip p s store accepted = record {
    store = check_and_insert-IsStore lru m.replay_now m.writes p.nonce s.replay store;
    size = (check_and_insert-Change lru m.replay_now m.writes p.nonce s.replay).1;
    held = accepted-Held lru m.replay_now m.writes p.nonce s.replay store accepted;
  }

  served_core :
      (t : ParentTurn) (d : Serving host config c) {q : CryptoMsg}
      → recv_msg c t.recv ≡ ok q
      → (parent_round host config c t d).core
        ≡ prune_on_tick host config
            (next_tick d.tick)
            t.pruning
            (handle_crypto_msg host t.handling q config d.core)
  unfolding parent_round on_crypto_msg
  served_core t d got =
      ap
        (λ r.
          prune_on_tick host config (next_tick d.tick) t.pruning
            (on_crypto_msg host config c t.handling r d.core))
        got

  prune_on_tick-rules :
      (tick : ℕ) (m : Moment) (s : State host)
      → (prune_on_tick host config tick m s).rules ≡ s.rules
  unfolding prune_on_tick
  prune_on_tick-rules tick m s = elim (Bool-cases (nat_beq (tick % prune_every_ticks) 0)) [
    | inl due ↦ rw due refl
    | inr early ↦ rw early refl
  ]

  -- Whatever the workers send: from a well-formed replay cache and with the laws of the `lru` crate,
  -- once a round of the parent has changed the firewall for a request, handling any request with the
  -- same nonce later, from any address, for any stanza and after any further rounds, leaves the
  -- firewall as it is, although rounds prune the cache, as long as no prune has read a clock more than
  -- `replay.max_age` ahead of that of the first handling and the requests in between are fewer than
  -- the places of the cache.
  pub parent_rounds-once :
      (t : ParentTurn) (ts : List ParentTurn) (m : Moment) (name name' : String) (ip ip' : IpAddr)
      (p p' : SpaPayload) (d : Serving host config c)
      → IsStore lru d.core.replay
      → recv_msg c t.recv ≡ ok (valid_request name ip p)
      → (parent_round host config c t d).core.rules ≢ d.core.rules
      → p'.nonce ≡ p.nonce
      → ArePrunedBy (t.handling.replay_now + as_secs config.replay.max_age) (t ∷ ts)
      → requests c ts < host.lru.cap d.core.replay.inner
      → let s = (parent_rounds host config c ts (parent_round host config c t d)).core in
        (handle_crypto_msg host m (valid_request name' ip' p') config s).rules ≡ s.rules
  parent_rounds-once t ts m name name' ip ip' p p' d store got changed same before few =
      let first = t.handling in
      let core = served_core t d got in
      let accepted = handle-accepted host config first name ip p d.core (λ e.
        changed
          (ap (λ x. x.rules) core ∙ prune_on_tick-rules (next_tick d.tick) t.pruning _ ∙ e)) in
      let s = (parent_rounds host config c ts (parent_round host config c t d)).core in
      let x = first.replay_now in
      let size = host.lru.cap d.core.replay.inner in
      let opened = subst (Keeps host lru config p.nonce x size 1) (sym core) (
        prune-Keeps host lru config p.nonce x size (next_tick d.tick) t.pruning 1 _ (ground arith)
          (served-Keeps first name ip p d.core store accepted)) in
      let (j, k) =
        rounds-Keeps host lru config c p.nonce x size (x + as_secs config.replay.max_age) ts 1
          (parent_round host config c t d) (omega arith) (ground arith) (omega arith) opened in
      handle-refused host config m name' ip' p' s (
        ap (λ q. (check_and_insert host.lru m.replay_now m.writes q s.replay).1) same
        ∙ Held-refused host lru m p.nonce j x s k.held)
