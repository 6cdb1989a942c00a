-- ===== src/Daemon/Again.antt =====
-- A packet that has opened the firewall does not open it again.
use fwknox.Base.{
  ℕ, ◌≡◌, ◌≤◌, ◌<◌, refl, ap, sym, ◌∙◌, subst, Bool, true, false, List, [], ◌∷◌, ◌++◌, arith,
  nat_eq, list_eq, length, length-append, Result, ok, err, Result-cases, inl, inr, bind_then,
  ok-injective, String,
}
use fwknox.Base.Lru.{IsLru}
use fwknox.Proto.Freshness.{validate_against_clock, default_max_skew_secs}
use fwknox.Config.Types.{as_secs, DaemonConfig}
use fwknox.Config.Valid.{AreUsable}
use fwknox.Replay.Cache.{Nonce, ReplayError, WriteCalls, Store, check_and_insert}
use fwknox.Replay.Check.{IsStore}
use fwknox.Replay.Window.{after, run, check_and_insert-replay}
use fwknox.Firewall.Backend.{RuleHandle}
use fwknox.Daemon.Host.{Host, State, Moment, CapturedPacket, now_unix, age_limit}
use fwknox.Daemon.Match.{match_packet}
use fwknox.Daemon.Pipeline.{
  find_stanza, take_match, or_return, Request, installed, refused, authenticate, after_replay,
  process_packet,
}
use fwknox.Daemon.Steps.{process_stop, process_go}
use fwknox.Daemon.Served.{IsStop, Stops, authenticate-Stops}

module _ (host : Host) (lru : IsLru host.lru) (config : DaemonConfig) where
  -- Packets in a row, each with what the system shows while it is handled.
  pub serve : List (Moment × CapturedPacket) → State host → State host
  serve [] s = s
  serve ((m, p) ∷ packets) s = serve packets (process_packet host m config p s).0

  run-append :
      (a b : List (ℕ × WriteCalls × Nonce)) (s : Store host.lru)
      → run lru (a ++ b) s ≡ run lru b (run lru a s)
  unfolding run
  run-append [] b s = refl
  run-append ((now, w, n) ∷ a) b s = run-append a b (after lru now w n s)

  -- A packet makes one call of the replay cache at most.
  packet-run :
      (m : Moment) (p : CapturedPacket) (s : State host)
      → (calls : List (ℕ × WriteCalls × Nonce)) × (length calls ≤ 1)
        × ((process_packet host m config p s).0.replay ≡ run lru calls s.replay)
  unfolding run after
  packet-run m p s = elim (Result-cases (authenticate host m config p)) [
    | inr (out, e) ↦ ([], omega arith, ap (λ x. x.0.replay) (process_stop host m config p s e))
    | inl (r, e) ↦ (
      (m.replay_now, m.writes, r.payload.nonce) ∷ [],
      omega arith,
      ap (λ x. x.0.replay) (process_go host m config p s e),
    )
  ]

  serve-run :
      (packets : List (Moment × CapturedPacket)) (s : State host)
      → (calls : List (ℕ × WriteCalls × Nonce)) × (length calls ≤ length packets)
        × ((serve packets s).replay ≡ run lru calls s.replay)
  unfolding serve run
  serve-run [] s = ([], omega arith, refl)
  serve-run ((m, p) ∷ packets) s =
      let (one, few, first) = packet-run m p s in
      let (rest, less, later) = serve-run packets (process_packet host m config p s).0 in
      (
        one ++ rest,
        omega (arith, length-append one rest),
        later ∙ ap (run lru rest) first ∙ sym (run-append one rest s.replay),
      )

  -- The payload of a request is that of the datagram, whatever the source and the clock.
  authenticate-match :
      (m : Moment) (p : CapturedPacket) {r : Request}
      → authenticate host m config p ≡ ok r
      → take_match (match_packet host.crypto p.datagram config.access)
        ≡ ok (r.stanza_name, r.payload)
  unfolding authenticate
  authenticate-match m p h =
      bind_then (take_match (match_packet host.crypto p.datagram config.access)) _ h λ f found h.
        bind_then (or_return (find_stanza config.access f.0) err) _ h λ s looked_up h.
          bind_then
            (or_return
              (validate_against_clock f.1 (now_unix m.unix)
                (age_limit (as_secs config.daemon.max_spa_packet_age)) default_max_skew_secs)
              (λ e. ok (refused f.0 (fwknox.Daemon.Host.Reason.protocol e))))
            _ h λ u fresh h. found ∙ ap (λ q. ok (q.stanza_name, q.payload)) (ok-injective h)

  pub authenticate-payload :
      (m m' : Moment) (p p' : CapturedPacket) {r r' : Request}
      → p'.datagram ≡ p.datagram
      → authenticate host m config p ≡ ok r
      → authenticate host m' config p' ≡ ok r'
      → r.payload ≡ r'.payload
  authenticate-payload m m' p p' same asked asked' =
      ap (λ f. f.1)
        (ok-injective (
          sym (authenticate-match m p asked)
          ∙ ap (λ d. take_match (match_packet host.crypto d config.access)) (sym same)
          ∙ authenticate-match m' p' asked'))

  after_replay-installed :
      (p : CapturedPacket) (r : Request) (fresh : Result ReplayError Bool)
      (rules : host.firewall.State) {name : String} {h : RuleHandle}
      → (after_replay host config p.source_ip r fresh rules).1 ≡ ok (installed name h)
      → fresh ≡ ok true
  unfolding after_replay
  after_replay-installed p r (ok true) rules e = refl
  after_replay-installed p r (ok false) rules e = absurd (cc)
  after_replay-installed p r (err d) rules e = absurd (cc)

  -- What an installation shows: the request, and that its nonce was accepted.
  pub installed-accepted :
      (m : Moment) (p : CapturedPacket) (s : State host) {name : String} {h : RuleHandle}
      → AreUsable [] config.access
      → (process_packet host m config p s).1 ≡ ok (installed name h)
      → (r : Request) × (authenticate host m config p ≡ ok r)
        × ((check_and_insert host.lru m.replay_now m.writes r.payload.nonce s.replay).1 ≡ ok true)
        × ((process_packet host m config p s).0.replay
            ≡ after lru m.replay_now m.writes r.payload.nonce s.replay)
  unfolding after
  installed-accepted m p s usable done = elim (Result-cases (authenticate host m config p)) [
    | inr (out, e) ↦ absurd (
        subst IsStop (sym (ap (λ x. x.1) (process_stop host m config p s e)) ∙ done)
          (subst Stops e (authenticate-Stops host lru m config p usable)))
    | inl (r, e) ↦
        let go = process_go host m config p s e in
        (
          r,
          e,
          after_replay-installed p r _ s.rules (sym (ap (λ x. x.1) go) ∙ done),
          ap (λ x. x.0.replay) go,
        )
  ]

  -- A request whose nonce is refused leaves the firewall as it was.
  pub replayed-rules :
      (m : Moment) (p : CapturedPacket) (s : State host)
      → ((r : Request)
          → authenticate host m config p ≡ ok r
          → (check_and_insert host.lru m.replay_now m.writes r.payload.nonce s.replay).1 ≡ ok false)
      → (process_packet host m config p s).0.rules ≡ s.rules
  unfolding after_replay
  replayed-rules m p s old = elim (Result-cases (authenticate host m config p)) [
    | inr (out, e) ↦ ap (λ x. x.0.rules) (process_stop host m config p s e)
    | inl (r, e) ↦
        ap (λ x. x.0.rules) (process_go host m config p s e)
        ∙ ap (λ f. (after_replay host config p.source_ip r f s.rules).0) (old r e)
  ]

  -- Under a list of stanzas that `validate` accepts and a well-formed replay cache, with the laws
  -- of the `lru` crate: once a datagram has opened the firewall, handling it again, from any
  -- address and at any time, leaves the firewall as it is, as long as the packets in between are
  -- fewer than the places of the replay cache, whatever they are.
  pub process_packet-once :
      (m m' : Moment) (p p' : CapturedPacket) (packets : List (Moment × CapturedPacket))
      (s : State host) {name : String} {h : RuleHandle}
      → AreUsable [] config.access
      → IsStore lru s.replay
      → p'.datagram ≡ p.datagram
      → (process_packet host m config p s).1 ≡ ok (installed name h)
      → length packets < host.lru.cap s.replay.inner
      → let t = serve packets (process_packet host m config p s).0 in
        (process_packet host m' config p' t).0.rules ≡ t.rules
  process_packet-once m m' p p' packets s usable store same done few =
      let s1 = (process_packet host m config p s).0 in
      let (r, asked, accepted, kept) = installed-accepted m p s usable done in
      let (calls, bound, later) = serve-run packets s1 in
      replayed-rules m' p' (serve packets s1) (λ r' asked'.
        let payload = authenticate-payload m m' p p' same asked asked' in
        ap
          (λ q.
            (check_and_insert host.lru m'.replay_now m'.writes q.nonce (serve packets s1).replay).1)
          (sym payload)
        ∙ ap (λ c. (check_and_insert host.lru m'.replay_now m'.writes r.payload.nonce c).1)
            (later ∙ ap (run lru calls) kept)
        ∙ check_and_insert-replay lru m.replay_now m'.replay_now m.writes m'.writes r.payload.nonce
            calls s.replay store accepted (omega arith))
