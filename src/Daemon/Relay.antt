-- ===== src/Daemon/Relay.antt =====
-- The one process and the three agree on the firewall.
use fwknox.Base.{
  ℕ, ◌≡◌, refl, ap, sym, ◌∙◌, subst, Bool, true, false, not, ◌&&◌, some, List, [], ◌∷◌, String,
  arith, nat_eq, list_eq, Result, ok, err, ◌>>=◌, ◌>>◌, Result-cases, inl, inr, bind_then,
  ok-injective, fail_if, any, ◌==◌, string_eq, min,
}
use fwknox.Proto.Types.{
  IpAddr, PortProto, SpaMessage, access, nat, local_nat, command, SpaPayload, ip_eq, port_proto_eq,
}
use fwknox.Proto.Freshness.{validate_against_clock, default_max_skew_secs}
use fwknox.Config.Types.{Duration, as_secs, matches, AccessStanza, DaemonConfig}
use fwknox.Replay.Cache.{ReplayError, check_and_insert}
use fwknox.Daemon.Host.{
  Host, State, Moment, CapturedPacket, Reason, protocol, source_mismatch, source_not_allowed,
  now_unix, age_limit,
}
use fwknox.Daemon.Match.{MatchResult, matched, no_match, rejected, match_packet}
use fwknox.Daemon.Pipeline.{
  find_stanza, clamp_timeout, take_match, take_access, check_ports, or_return, Request, Outcome,
  authenticate, check_policy, access_rule, after_replay, process_packet, refused,
}
use fwknox.Daemon.Steps.{process_stop, process_go, admit_refused, admit_allowed, install-rules}
use fwknox.Daemon.Policy.{take_match-eq-ok, or_return-eq-ok, check_policy-IsAllowed}
use fwknox.Daemon.Serve.{serve_old, serve_failed}
use fwknox.Daemon.Privsep.{
  CaptureMsg, CryptoMsg, valid_request, rejected_request, no_match_msg, take_match_msg,
  take_access_msg, check_ports_msg, returned, validate_capture_msg, open_for, find_by_name,
  serve_request, handle_crypto_msg, relay,
}

check_ports_msg-eq :
    (ip : IpAddr) (allowed ports : List PortProto)
    → check_ports_msg ip allowed ports ≡ or_return (check_ports allowed ports) (rejected_request ip)
unfolding check_ports_msg check_ports
check_ports_msg-eq ip allowed [] = refl
check_ports_msg-eq ip allowed (pp ∷ ports) = ground (arith, check_ports_msg-eq ip allowed ports)

take_access_msg-eq :
    (ip : IpAddr) (m : SpaMessage)
    → take_access_msg ip m ≡ or_return (take_access m) (rejected_request ip)
unfolding take_access_msg take_access
take_access_msg-eq ip (access source ports) = refl
take_access_msg-eq ip (nat source ports dest) = refl
take_access_msg-eq ip (local_nat source ports dest) = refl
take_access_msg-eq ip (command source line) = refl

find_by_name-find_stanza :
    (host : Host) (ss : List AccessStanza) (name : String) {s : AccessStanza}
    → find_stanza ss name ≡ ok s
    → find_by_name host ss name ≡ some s
unfolding find_stanza find_by_name
find_by_name-find_stanza host [] name h = absurd (cc)
find_by_name-find_stanza host (t ∷ ss) name {s = s} h =
    ground (arith, find_by_name-find_stanza host ss name {s = s})

pub clamp_timeout-min : (d limit : Duration) → clamp_timeout d limit ≡ min d limit
unfolding clamp_timeout
clamp_timeout-min d limit = ground arith

module _ (host : Host) (m : Moment) (config : DaemonConfig) (ip : IpAddr) (bytes : List ℕ) where
  abbrev captured : CapturedPacket
  captured = record { source_ip = ip; datagram = bytes }

  abbrev msg : CaptureMsg
  msg = record { source_ip = ip; datagram = bytes }

  -- What the worker says of an authentic request.
  verdict : Request → Result Reason (IpAddr × List PortProto) → CryptoMsg
  verdict r (ok asked) = valid_request r.stanza_name ip r.payload
  verdict r (err reason) = rejected_request ip reason

  -- The checks of `validate_capture_msg` on source and ports are those of `process_packet`.
  policy_msg :
      (r : Request) (message : SpaMessage)
      → returned (do
        asked ← take_access_msg ip message
        fail_if
            (r.stanza.require_source_match && not (asked.0 == ip))
            (rejected_request ip (source_mismatch asked.0 ip))
        fail_if
            (not (any (λ s. matches host.contains s ip) r.stanza.source))
            (rejected_request ip (source_not_allowed ip))
        check_ports_msg ip r.stanza.open_ports asked.1
        ok (valid_request r.stanza_name ip r.payload))
        ≡ verdict r (check_policy host r.stanza ip message)
  unfolding verdict check_policy take_access_msg take_access
  policy_msg r (access source ports) =
      rw (check_ports_msg-eq ip r.stanza.open_ports ports) (ground arith)
  policy_msg r (nat source ports dest) = refl
  policy_msg r (local_nat source ports dest) = refl
  policy_msg r (command source line) = refl

  take_match_msg-eq :
      (x : MatchResult) {f : String × SpaPayload} → x ≡ matched f.0 f.1 → take_match_msg ip x ≡ ok f
  unfolding take_match_msg
  take_match_msg-eq x e = rw e refl

  -- The worker's answer to an authentic request.
  validate-verdict :
      {r : Request}
      → authenticate host m config captured ≡ ok r
      → (validate_capture_msg host m msg config
          ≡ verdict r (check_policy host r.stanza ip r.payload.message))
        × (find_stanza config.access r.stanza_name ≡ ok r.stanza)
  unfolding authenticate validate_capture_msg
  validate-verdict h =
      bind_then (take_match (match_packet host.crypto bytes config.access)) _ h λ f found h.
        bind_then (or_return (find_stanza config.access f.0) err) _ h λ s looked_up h.
          bind_then
            (or_return
              (validate_against_clock f.1 (now_unix m.unix)
                (age_limit (as_secs config.daemon.max_spa_packet_age)) default_max_skew_secs)
              (λ e. ok (refused f.0 (protocol e))))
            _ h
            λ u fresh h.
              let found_msg = take_match_msg-eq _ (take_match-eq-ok _ found) in
              let stanza = or_return-eq-ok _ err looked_up in
              let clock = or_return-eq-ok _ _ fresh in
              let r : Request = record { stanza_name = f.0; payload = f.1; stanza = s } in
              subst
                (λ q.
                  (validate_capture_msg host m msg config
                    ≡ verdict q (check_policy host q.stanza ip q.payload.message))
                  × (find_stanza config.access q.stanza_name ≡ ok q.stanza))
                (ok-injective h)
                (
                  rw (validate_capture_msg, found_msg, stanza, clock) (policy_msg r f.1.message),
                  stanza,
                )

  abbrev IsQuiet : CryptoMsg → Type 0
  IsQuiet (valid_request name source p) = ⊥
  IsQuiet (rejected_request source reason) = Unit
  IsQuiet (no_match_msg source) = Unit

  take_match_msg-IsQuiet :
      (x : MatchResult) {out : Outcome}
      → take_match x ≡ err out
      → (q : CryptoMsg) × (take_match_msg ip x ≡ err q) × IsQuiet q
  unfolding take_match take_match_msg
  take_match_msg-IsQuiet (matched name p) h = absurd (cc)
  take_match_msg-IsQuiet no_match h = (no_match_msg ip, refl, tt)
  take_match_msg-IsQuiet (rejected name e) h = (rejected_request ip (protocol e), refl, tt)

  authenticate_ok :
      {f : String × SpaPayload} {s : AccessStanza} {u : Unit {0}}
      → take_match (match_packet host.crypto bytes config.access) ≡ ok f
      → find_stanza config.access f.0 ≡ ok s
      → validate_against_clock f.1
          (now_unix m.unix)
          (age_limit (as_secs config.daemon.max_spa_packet_age))
          default_max_skew_secs
        ≡ ok u
      → authenticate host m config captured
        ≡ ok (record { stanza_name = f.0; payload = f.1; stanza = s })
  unfolding authenticate
  authenticate_ok found stanza clock = rw (authenticate, found, stanza, clock) refl

  -- The worker never forwards what `process_packet` stops before the replay check.
  validate-IsQuiet :
      {out : Outcome}
      → authenticate host m config captured ≡ err out
      → IsQuiet (validate_capture_msg host m msg config)
  unfolding authenticate validate_capture_msg
  validate-IsQuiet {out} h =
      elim (Result-cases (take_match (match_packet host.crypto bytes config.access))) [
        | inr (o, stop) ↦
            let (q, e, quiet) = take_match_msg-IsQuiet _ stop in rw (validate_capture_msg, e) quiet
        | inl (f, found) ↦
            let found_msg = take_match_msg-eq _ (take_match-eq-ok _ found) in
            elim (Result-cases (find_stanza config.access f.0)) [
              | inr (o, stop) ↦ rw (validate_capture_msg, found_msg, stop) tt
              | inl (s, stanza) ↦
                  elim (Result-cases (
                    validate_against_clock f.1 (now_unix m.unix)
                      (age_limit (as_secs config.daemon.max_spa_packet_age))
                      default_max_skew_secs)) [
                        | inr (o, stop) ↦ rw (validate_capture_msg, found_msg, stanza, stop) tt
                        | inl (u, clock) ↦
                            absurd (let go = authenticate_ok found stanza clock in cc)
                      ]
            ]
      ]

  handle_quiet :
      (s : State host) (q : CryptoMsg) → IsQuiet q → handle_crypto_msg host m q config s ≡ s
  unfolding handle_crypto_msg
  handle_quiet s (valid_request name source p) i = absurd i
  handle_quiet s (rejected_request source reason) i = refl
  handle_quiet s (no_match_msg source) i = refl

  -- The two rules are one rule.
  open_for-access_rule :
      (r : Request) (asked : IpAddr × List PortProto) (rules : host.firewall.State)
      → find_stanza config.access r.stanza_name ≡ ok r.stanza
      → open_for host config r.payload asked.0 asked.1
          (find_by_name host config.access r.stanza_name)
          rules
        ≡ (host.firewall.open_access (access_rule config.daemon r.stanza r.payload asked) rules).0
  unfolding open_for access_rule
  open_for-access_rule r asked rules found =
      rw (find_by_name-find_stanza host config.access r.stanza_name found, clamp_timeout-min) refl

  serve_new :
      (name : String) (p : SpaPayload) (message : SpaMessage) (rules : host.firewall.State)
      {asked : IpAddr × List PortProto}
      → message ≡ access asked.0 asked.1
      → serve_request host config name p message (ok true) rules
        ≡ open_for host config p asked.0 asked.1 (find_by_name host config.access name) rules
  unfolding serve_request
  serve_new name p message rules e = rw e refl

  serve-after_replay :
      (r : Request) (fresh : Result ReplayError Bool) (rules : host.firewall.State)
      {asked : IpAddr × List PortProto}
      → find_stanza config.access r.stanza_name ≡ ok r.stanza
      → check_policy host r.stanza ip r.payload.message ≡ ok asked
      → r.payload.message ≡ access asked.0 asked.1
      → (after_replay host config ip r fresh rules).0
        ≡ serve_request host config r.stanza_name r.payload r.payload.message fresh rules
  unfolding after_replay serve_request
  serve-after_replay r (ok true) rules {asked} found granted asks =
      ap (λ x. x.0) (admit_allowed host m config captured r rules granted)
      ∙ install-rules host m config captured r.stanza_name _
      ∙ sym (open_for-access_rule r asked rules found)
      ∙ sym (serve_new r.stanza_name r.payload r.payload.message rules asks)
  serve-after_replay r (ok false) rules found granted asks =
      sym (serve_old host config r.stanza_name r.payload r.payload.message rules)
  serve-after_replay r (err e) rules found granted asks =
      sym (serve_failed host config r.stanza_name r.payload r.payload.message e rules)

  -- A policy that refuses leaves the firewall alone, whatever the replay cache said.
  after_replay_refused :
      (r : Request) (fresh : Result ReplayError Bool) (rules : host.firewall.State)
      {reason : Reason}
      → check_policy host r.stanza ip r.payload.message ≡ err reason
      → (after_replay host config ip r fresh rules).0 ≡ rules
  unfolding after_replay
  after_replay_refused r (ok true) rules denied =
      rw (admit_refused host m config captured r rules denied) refl
  after_replay_refused r (ok false) rules denied = refl
  after_replay_refused r (err e) rules denied = refl

  handle_valid :
      (s : State host) (name : String) (p : SpaPayload)
      → (handle_crypto_msg host m (valid_request name ip p) config s).rules
        ≡ serve_request host config name p p.message
            (check_and_insert host.lru m.replay_now m.writes p.nonce s.replay).1
            s.rules
  unfolding handle_crypto_msg
  handle_valid s name p = refl

  -- From the same state, a packet has the same effect on the firewall whether one process handles
  -- it or the capture and crypto workers hand it to the parent.
  pub process_packet-relay :
      (s : State host)
      → (process_packet host m config captured s).0.rules ≡ (relay host m config msg s).rules
  unfolding relay verdict
  process_packet-relay s = elim (Result-cases (authenticate host m config captured)) [
    | inr (out, e) ↦
        rw (process_stop host m config captured s e)
          (sym (ap (λ t. t.rules) (handle_quiet s _ (validate-IsQuiet e))))
    | inl (r, e) ↦
        let (said, found) = validate-verdict e in
        elim (Result-cases (check_policy host r.stanza ip r.payload.message)) [
          | inl (asked, granted) ↦
              rw (process_go host m config captured s e, said, granted)
                (serve-after_replay r _ s.rules found granted
                    (check_policy-IsAllowed host r.stanza ip r.payload.message granted).0
                  ∙ sym (handle_valid s r.stanza_name r.payload))
          | inr (reason, denied) ↦
              rw (process_go host m config captured s e, said, denied)
                (after_replay_refused r _ s.rules denied
                  ∙ sym (ap (λ t. t.rules) (handle_quiet s (rejected_request ip reason) tt)))
        ]
  ]
