-- ===== src/Daemon/Pipeline.antt =====
-- crates/fwknox-daemon/src/pipeline.rs: one packet in one process.
use Prim.Native.String.{◌++◌ as append}
use fwknox.Base.{
  Bool, true, false, not, ◌&&◌, Option, none, some, List, [], ◌∷◌, String, any, ltb, if◌then◌else◌,
  ◌==◌, string_eq, Result, ok, err, ◌>>=◌, ◌>>◌, fail_if, nat_eq, list_eq,
}
use fwknox.Base.Decimal.{decimal_ℤ}
use fwknox.Proto.Types.{
  IpAddr, PortProto, SpaMessage, access, nat, local_nat, command, SpaPayload, ip_eq, port_proto_eq,
}
use fwknox.Proto.Freshness.{validate_against_clock, default_max_skew_secs}
use fwknox.Config.Types.{Duration, as_secs, matches, AccessStanza, DaemonConfig, DaemonSection}
use fwknox.Replay.Cache.{ReplayError, check_and_insert}
use fwknox.Firewall.Backend.{AccessRule, RuleHandle, FirewallError}
use fwknox.Daemon.Host.{
  Host, State, Moment, CapturedPacket, Reason, protocol, persist_failed, unsupported_message,
  source_mismatch, source_not_allowed, port_not_open, now_unix, age_limit,
}
use fwknox.Daemon.Match.{MatchResult, matched, no_match, rejected, match_packet}

-- The two variants that `process_packet` returns.
pub data DaemonError : Type 0 where
  invariant_violation : (stanza_name : String) → DaemonError
  firewall : FirewallError → DaemonError

pub data ProcessResult : Type 0 where
  installed : (stanza_name : String) (handle : RuleHandle) → ProcessResult
  replayed : (stanza_name : String) → ProcessResult
  no_stanza : ProcessResult
  refused : (stanza_name : String) (reason : Reason) → ProcessResult

-- What the function returns: the error of an early return is the whole result.
abbrev pub Outcome : Type 0
Outcome = Result DaemonError ProcessResult

unfoldable pub find_stanza : List AccessStanza → String → Result DaemonError AccessStanza
find_stanza [] name = err (invariant_violation name)
find_stanza (s ∷ rest) name =
    let later = find_stanza rest name in if s.name == name then ok s else later

unfoldable pub clamp_timeout : Duration → Duration → Duration
clamp_timeout requested limit = if ltb limit requested then limit else requested

-- `Option::unwrap_or`
abbrev pub unwrap_or {ℓ} : {A : Type ℓ} → Option A → A → A
unwrap_or none d = d
unwrap_or (some a) d = a

-- The comment of a rule.
unfoldable pub comment_for : SpaPayload → String
comment_for p = append "fwknox:" (append p.username (append ":" (decimal_ℤ p.timestamp)))

-- Step 1, up to the stanza's name.
unfoldable pub take_match : MatchResult → Result Outcome (String × SpaPayload)
take_match (matched name payload) = ok (name, payload)
take_match no_match = err (ok no_stanza)
take_match (rejected name reason) = err (ok (refused name (protocol reason)))

abbrev pub or_return {ℓ κ ι} :
    {E : Type ℓ} {R : Type κ} {A : Type ι} → Result E A → (E → R) → Result R A
or_return (ok a) f = ok a
or_return (err e) f = err (f e)

-- The loop of step 5.
unfoldable pub check_ports : List PortProto → List PortProto → Result Reason (Unit {0})
check_ports allowed [] = ok tt
check_ports allowed (pp ∷ ports) = do
  fail_if (not (any (λ a. a == pp) allowed)) (port_not_open pp)
  check_ports allowed ports

-- The pattern of step 4.
unfoldable pub take_access : SpaMessage → Result Reason (IpAddr × List PortProto)
take_access (access ip ports) = ok (ip, ports)
take_access (nat ip ports dest) = err unsupported_message
take_access (local_nat ip ports dest) = err unsupported_message
take_access (command ip line) = err unsupported_message

-- What steps 1 and 2 establish.
pub record Request : Type 0 where
  pub stanza_name : String
  pub payload : SpaPayload
  pub stanza : AccessStanza

-- Step 6, up to the call of the backend.
unfoldable pub access_rule :
    DaemonSection → AccessStanza → SpaPayload → IpAddr × List PortProto → AccessRule
access_rule daemon stanza payload asked = record {
  source_ip = asked.0;
  ports = asked.1;
  timeout =
      clamp_timeout (unwrap_or stanza.fw_timeout daemon.default_fw_timeout) daemon.max_fw_timeout;
  comment = comment_for payload;
}

module _ (host : Host) where
  -- Steps 1 and 2.
  unfoldable pub authenticate : Moment → DaemonConfig → CapturedPacket → Result Outcome Request
  authenticate m config captured = do
    found ← take_match (match_packet host.crypto captured.datagram config.access)
    stanza ← or_return (find_stanza config.access found.0) err
    or_return
        (validate_against_clock found.1 (now_unix m.unix)
          (age_limit (as_secs config.daemon.max_spa_packet_age)) default_max_skew_secs)
        (λ e. ok (refused found.0 (protocol e)))
    ok (record { stanza_name = found.0; payload = found.1; stanza = stanza })

  -- Steps 4 and 5.
  unfoldable pub check_policy :
      AccessStanza → IpAddr → SpaMessage → Result Reason (IpAddr × List PortProto)
  check_policy stanza packet_ip message = do
    asked ← take_access message
    fail_if (stanza.require_source_match && not (asked.0 == packet_ip))
        (source_mismatch asked.0 packet_ip)
    fail_if (not (any (λ s. matches host.contains s packet_ip) stanza.source))
        (source_not_allowed packet_ip)
    check_ports stanza.open_ports asked.1
    ok asked

  unfoldable pub install :
      String → host.firewall.State × Result FirewallError RuleHandle → host.firewall.State × Outcome
  install name (rules, ok h) = (rules, ok (installed name h))
  install name (rules, err e) = (rules, err (firewall e))

  -- Steps 4 to 6.
  unfoldable pub admit :
      DaemonConfig → IpAddr → Request → host.firewall.State → host.firewall.State × Outcome
  admit config packet_ip r rules = elim (check_policy r.stanza packet_ip r.payload.message) [
    | ok asked ↦
        install r.stanza_name
          (host.firewall.open_access (access_rule config.daemon r.stanza r.payload asked) rules)
    | err reason ↦ (rules, ok (refused r.stanza_name reason))
  ]

  -- Step 3 decides whether the rest is done.
  unfoldable pub after_replay :
      DaemonConfig
      → IpAddr
      → Request
      → Result ReplayError Bool
      → host.firewall.State
      → host.firewall.State × Outcome
  after_replay config packet_ip r (ok true) rules = admit config packet_ip r rules
  after_replay config packet_ip r (ok false) rules = (rules, ok (replayed r.stanza_name))
  after_replay config packet_ip r (err e) rules =
      (rules, ok (refused r.stanza_name (persist_failed e)))

  unfoldable pub process_packet :
      Moment → DaemonConfig → CapturedPacket → State host → State host × Outcome
  process_packet m config captured s = elim (authenticate m config captured) [
    | err out ↦ (s, out)
    | ok r ↦
        let (replay, fresh) =
          check_and_insert host.lru m.replay_now m.writes r.payload.nonce s.replay in
        let (rules, out) = after_replay config captured.source_ip r fresh s.rules in
        (record { replay = replay; rules = rules }, out)
  ]
