-- ===== src/Daemon/Fresh.antt =====
-- The age of a packet that opens the firewall.
use fwknox.Base.{
  nat_eq, list_eq, ℕ, ◌+◌, ◌≡◌, ◌<◌, ap, sym, ◌∙◌, [], arith, Bool, true, false, Result, ok, err,
  subst, Result-cases, inl, inr, String,
}
use fwknox.Base.Int.{pos, IsI64, i64_half}
use fwknox.Base.Lru.{IsLru}
use fwknox.Proto.Types.{Bytes, SpaPayload}
use fwknox.Proto.Packet.Parse.{Accepted, parse_packet-Accepted}
use fwknox.Proto.Freshness.{validate_against_clock, IsFresh, validate_against_clock-IsFresh}
use fwknox.Config.Types.{as_secs, AccessStanza, DaemonConfig}
use fwknox.Config.Valid.{AreUsable}
use fwknox.Replay.Cache.{ReplayError}
use fwknox.Firewall.Backend.{RuleHandle, FirewallError}
use fwknox.Daemon.Host.{Host, State, Moment, CapturedPacket, now_unix, age_limit}
use fwknox.Daemon.Pipeline.{
  authenticate, Request, installed, process_packet, install, after_replay, check_policy,
}
use fwknox.Daemon.Steps.{process_go, admit_allowed, admit_refused}
use fwknox.Daemon.Owner.{IsOwner}
use fwknox.Daemon.Policy.{authenticate-IsAuthentic}
use fwknox.Daemon.Again.{installed-accepted}

now_unix-small : (n : ℕ) → n < i64_half → now_unix n ≡ pos n
unfolding now_unix
now_unix-small n h = ground arith

age_limit-small : (n : ℕ) → n < i64_half → age_limit n ≡ pos n
unfolding age_limit
age_limit-small n h = ground arith

module _ (host : Host) (lru : IsLru host.lru) (config : DaemonConfig) where
  -- The same of every packet that gets as far as the replay cache.
  pub authenticate-IsFresh :
      (m : Moment) (p : CapturedPacket) {r : Request}
      → AreUsable [] config.access
      → m.unix + 30 < i64_half
      → as_secs config.daemon.max_spa_packet_age < i64_half
      → ((b : Bytes) (payload : SpaPayload)
          → host.crypto.from_slice b ≡ ok payload
          → IsI64 payload.timestamp)
      → authenticate host m config p ≡ ok r
      → Accepted host.crypto p.datagram r.stanza.master_key r.payload
        × IsFresh m.unix (as_secs config.daemon.max_spa_packet_age) 30 r.payload.timestamp
  authenticate-IsFresh m p {r = r} usable clock limit typed asked =
      let authentic = authenticate-IsAuthentic host m config p usable asked in
      let parsed =
        parse_packet-Accepted host.crypto p.datagram r.stanza.master_key authentic.owner.parses in
      let age = as_secs config.daemon.max_spa_packet_age in
      (
        parsed,
        (validate_against_clock-IsFresh r.payload m.unix age 30 clock limit
              (typed parsed.opened.plaintext r.payload parsed.opened.decoded)).0
            (ap (λ t. validate_against_clock r.payload t (pos age) (pos 30))
                (sym (now_unix-small m.unix (omega arith)))
              ∙ ap (λ a. validate_against_clock r.payload (now_unix m.unix) a (pos 30))
                  (sym (age_limit-small age limit))
              ∙ authentic.fresh),
      )

  install-installed :
      (n : String) (x : host.firewall.State × Result FirewallError RuleHandle) {name : String}
      {h : RuleHandle}
      → (install host n x).1 ≡ ok (installed name h)
      → n ≡ name
  unfolding install
  install-installed n (rules, ok h') e = cc
  install-installed n (rules, err d) e = absurd (cc)

  -- The name in the outcome is that of the stanza that was found.
  after_replay-installed :
      (m : Moment) (p : CapturedPacket) (r : Request) (seen : Result ReplayError Bool)
      (rules : host.firewall.State) {name : String} {h : RuleHandle}
      → (after_replay host config p.source_ip r seen rules).1 ≡ ok (installed name h)
      → r.stanza_name ≡ name
  unfolding after_replay
  after_replay-installed m p r (ok true) rules {name} {h} e =
      elim (Result-cases (check_policy host r.stanza p.source_ip r.payload.message)) [
        | inl (asked, granted) ↦
            install-installed r.stanza_name _
              (sym (ap (λ x. x.1) (admit_allowed host m config p r rules granted)) ∙ e)
        | inr (reason, denied) ↦
            absurd (let out = ap (λ x. x.1) (admit_refused host m config p r rules denied) in cc)
      ]
  after_replay-installed m p r (ok false) rules e = absurd (cc)
  after_replay-installed m p r (err d) rules e = absurd (cc)

  -- Under a list of stanzas that `validate` accepts, when the codec gives timestamps of 64 bits
  -- and the clock and the maximal age are in range: a packet that opens the firewall is given to the
  -- stanza of the configuration that the outcome names and that the lookup by this name gives, and
  -- parses under that stanza's key to a payload stamped no more than 30 seconds ahead of the clock and
  -- no more than the maximal age behind it.
  pub process_packet-IsFresh :
      (m : Moment) (p : CapturedPacket) (s : State host) {name : String} {h : RuleHandle}
      → AreUsable [] config.access
      → m.unix + 30 < i64_half
      → as_secs config.daemon.max_spa_packet_age < i64_half
      → ((b : Bytes) (payload : SpaPayload)
          → host.crypto.from_slice b ≡ ok payload
          → IsI64 payload.timestamp)
      → (process_packet host m config p s).1 ≡ ok (installed name h)
      → (stanza : AccessStanza) × (payload : SpaPayload) × IsOwner host.crypto p.datagram
          config.access name payload stanza
        × Accepted host.crypto p.datagram stanza.master_key payload
        × IsFresh m.unix (as_secs config.daemon.max_spa_packet_age) 30 payload.timestamp
  process_packet-IsFresh m p s usable clock limit typed done =
      let (r, asked, _, _) = installed-accepted host lru config m p s usable done in
      let (parsed, fresh) = authenticate-IsFresh m p usable clock limit typed asked in
      let authentic = authenticate-IsAuthentic host m config p usable asked in
      let named =
        after_replay-installed m p r _ s.rules
          (sym (ap (λ x. x.1) (process_go host m config p s asked)) ∙ done) in
      (
        r.stanza,
        r.payload,
        subst (λ n. IsOwner host.crypto p.datagram config.access n r.payload r.stanza) named
            authentic.owner,
        parsed,
        fresh,
      )
