-- ===== src/Client/Admitted.antt =====
-- From the client's arguments to the daemon's firewall.
use fwknox.Base.{
  ℕ, ◌+◌, ◌%◌, ◌≡◌, ◌≤◌, ◌<◌, refl, sym, ◌∙◌, subst, true, false, not, ◌&&◌, Option, List, [], ◌∷◌,
  arith, min, any, all, lt→ltb, ok, ◌==◌, ==-refl, string_eq, nat_eq, list_eq,
}
use fwknox.Base.Int.{pos, of_bits, i64_half, i64_mod, IsI64}
use fwknox.Base.Text.{Text}
use fwknox.Proto.Types.{Bytes, IpAddr, PortProto, access, SpaPayload, ip_eq, port_proto_eq}
use fwknox.Proto.Crypto.{IsSound}
use fwknox.Proto.Payload.{validate_structure}
use fwknox.Proto.Packet.{parse_packet}
use fwknox.Proto.Freshness.{
  IsFresh, validate_against_clock, default_max_skew_secs, validate_against_clock-IsFresh,
}
use fwknox.Config.Types.{as_secs, matches, AccessStanza, DaemonConfig}
use fwknox.Config.Client.{ServerEntry}
use fwknox.Replay.Cache.{Store, check_and_insert}
use fwknox.Firewall.Backend.{AccessRule}
use fwknox.Daemon.Host.{Host, State, Moment, CapturedPacket, now_unix, age_limit}
use fwknox.Daemon.Match.{try_stanza, match_packet}
use fwknox.Daemon.Pipeline.{
  take_match, find_stanza, take_access, check_ports, Request, authenticate, check_policy,
  access_rule, unwrap_or, comment_for, install, after_replay, process_packet,
}
use fwknox.Daemon.Relay.{clamp_timeout-min}
use fwknox.Daemon.Steps.{process_go, admit_allowed}
use fwknox.Client.Packet.{Cli, Tools, Surroundings, current_unix, build_spa_packet}
use fwknox.Client.Built.{asked_payload, IsAsked, parse_packet-build_spa_packet}

check_ports-open :
    (allowed ports : List PortProto)
    → all (λ pp. any (λ a. a == pp) allowed) ports ≡ true
    → check_ports allowed ports ≡ ok tt
unfolding check_ports
check_ports-open allowed [] h = refl
check_ports-open allowed (pp ∷ ports) h =
    rw (open_port) (check_ports-open allowed ports (ground arith))
  where
    open_port : any (λ a. a == pp) allowed ≡ true
    open_port = ground arith

-- The rule for these ports and this source, with the timeout of the stanza or the default one, within
-- the limit.
abbrev pub lasting : DaemonConfig → AccessStanza → SpaPayload → IpAddr → List PortProto → AccessRule
lasting config stanza p source_ip ports = record {
  source_ip = source_ip;
  ports = ports;
  timeout =
      min (unwrap_or stanza.fw_timeout config.daemon.default_fw_timeout)
        config.daemon.max_fw_timeout;
  comment = comment_for p;
}

access_rule-lasting :
    (config : DaemonConfig) (stanza : AccessStanza) (p : SpaPayload) (source_ip : IpAddr)
    (ports : List PortProto)
    → access_rule config.daemon stanza p (source_ip, ports)
      ≡ lasting config stanza p source_ip ports
unfolding access_rule
access_rule-lasting config stanza p source_ip ports = rw (clamp_timeout-min) refl

-- A clock before 2292 is its own `i64`.
small_clock : (n : ℕ) → n < i64_half → of_bits (n % i64_mod) ≡ pos n
small_clock n h = ground arith

module _ (host : Host) (m : Moment) (config : DaemonConfig) (decode_b64 : Text → Option Bytes)
    (parse_ip : Text → Option IpAddr) (env : Surroundings) (cli : Cli)
    (server : Option ServerEntry) where
  -- The client's crates, with the daemon's cryptography.
  abbrev pub tools : Tools
  tools = record { crypto = host.crypto; decode_b64 = decode_b64; parse_ip = parse_ip }

  -- The clocks of the two machines, and the daemon's limit.
  pub record AreClose : Type 0 where
    pub client_clock : env.unix < i64_half
    pub daemon_clock : m.unix + 30 < i64_half
    pub limit : as_secs config.daemon.max_spa_packet_age < i64_half
    pub not_ahead : env.unix ≤ m.unix + 30
    pub not_behind : m.unix ≤ env.unix + as_secs config.daemon.max_spa_packet_age

  -- The stanza lets the client's request in from where its packet comes from.
  pub record IsInvited (stanza : AccessStanza) (packet_ip source_ip : IpAddr)
      (ports : List PortProto) : Type 0 where
    pub same_source : (stanza.require_source_match && not (source_ip == packet_ip)) ≡ false
    pub in_sources : any (λ s. matches host.contains s packet_ip) stanza.source ≡ true
    pub in_ports : all (λ pp. any (λ a. a == pp) stanza.open_ports) ports ≡ true

  clock-ok :
      (p : SpaPayload)
      → p.timestamp ≡ current_unix env
      → AreClose
      → validate_against_clock p
          (now_unix m.unix)
          (age_limit (as_secs config.daemon.max_spa_packet_age))
          default_max_skew_secs
        ≡ ok tt
  unfolding now_unix age_limit current_unix
  clock-ok p stamp c =
      let age = as_secs config.daemon.max_spa_packet_age in
      let stamped : p.timestamp ≡ pos env.unix = stamp ∙ small_clock env.unix c.client_clock in
      rw (small_clock m.unix (omega (arith, c.daemon_clock)), lt→ltb age i64_half c.limit)
        ((validate_against_clock-IsFresh p m.unix age 30 c.daemon_clock c.limit
            (subst IsI64 (sym stamped) (c.client_clock, omega arith))).1
          (subst (IsFresh m.unix age 30) (sym stamped) (record {
            not_ahead = omega (arith, c.not_ahead);
            not_behind = omega (arith, c.not_behind);
          })))

  check_policy-ok :
      (stanza : AccessStanza) (packet_ip source_ip : IpAddr) (ports : List PortProto)
      → IsInvited stanza packet_ip source_ip ports
      → check_policy host stanza packet_ip (access source_ip ports) ≡ ok (source_ip, ports)
  unfolding check_policy take_access
  check_policy-ok stanza packet_ip source_ip ports i =
      rw (i.same_source, i.in_sources, check_ports-open stanza.open_ports ports i.in_ports) refl

  authenticate-ok :
      (stanza : AccessStanza) (rest : List AccessStanza) (p : SpaPayload) (packet : CapturedPacket)
      → config.access ≡ stanza ∷ rest
      → parse_packet host.crypto packet.datagram stanza.master_key ≡ ok p
      → validate_against_clock p
          (now_unix m.unix)
          (age_limit (as_secs config.daemon.max_spa_packet_age))
          default_max_skew_secs
        ≡ ok tt
      → authenticate host m config packet
        ≡ ok (record { stanza_name = stanza.name; payload = p; stanza = stanza })
  unfolding authenticate match_packet try_stanza take_match find_stanza
  authenticate-ok stanza rest p packet first parsed fresh =
      rw (first, parsed, ==-refl stanza.name, fresh) refl

  -- A client whose packet is built reaches the firewall: with sound ciphers and codec, where the
  -- daemon's first stanza has the key that the client's arguments resolve to, the username is
  -- well formed, the two clocks are close, the stanza's sources and ports let the request in, and the
  -- nonce is new and saved, `process_packet` on the packet has the backend open exactly the ports and
  -- the source address that the client asks for, and changes nothing else but the replay cache. The
  -- rule lasts for the stanza's timeout, or for the daemon's default where the stanza has none, and at
  -- most for the daemon's limit, whatever timeout the client asks for; and the stanza's
  -- `require_username` has no part in it.
  pub process_packet-build_spa_packet :
      (stanza : AccessStanza) (rest : List AccessStanza) (ports : List PortProto)
      (source_ip : IpAddr) (nonce : Bytes) (packet : CapturedPacket) (s : State host)
      (store : Store host.lru)
      → IsSound host.crypto
      → IsAsked tools env cli server stanza.master_key ports source_ip nonce
      → build_spa_packet tools env cli server ≡ ok packet.datagram
      → validate_structure (asked_payload tools env cli server ports source_ip nonce) ≡ ok tt
      → AreClose
      → config.access ≡ stanza ∷ rest
      → IsInvited stanza packet.source_ip source_ip ports
      → check_and_insert host.lru m.replay_now m.writes nonce s.replay ≡ (store, ok true)
      → let opened =
          host.firewall.open_access
            (lasting config stanza
              (asked_payload tools env cli server ports source_ip nonce)
              source_ip
              ports)
            s.rules in
        process_packet host m config packet s ≡ (
          record { replay = store; rules = (install host stanza.name opened).0 },
          (install host stanza.name opened).1,
        )
  unfolding after_replay
  process_packet-build_spa_packet stanza rest ports source_ip nonce packet s store sound asked went
        valid close first invited fresh =
      let p = asked_payload tools env cli server ports source_ip nonce in
      let r : Request = record { stanza_name = stanza.name; payload = p; stanza = stanza } in
      let parsed : parse_packet host.crypto packet.datagram stanza.master_key ≡ ok p =
        parse_packet-build_spa_packet tools env cli server asked sound went valid in
      let known = authenticate-ok stanza rest p packet first parsed (clock-ok p refl close) in
      rw⁻¹ (access_rule-lasting config stanza p source_ip ports) (
        process_go host m config packet s known
        ∙ rw
            (
              fresh,
              admit_allowed host m config packet r s.rules
                  (check_policy-ok stanza packet.source_ip source_ip ports invited),
            )
            refl)
