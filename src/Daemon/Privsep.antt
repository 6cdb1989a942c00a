-- ===== src/Daemon/Privsep.antt =====
-- crates/fwknox-daemon/src/validate.rs and the handler of privsep_run.rs: the same packet checked by
-- the crypto worker, and served by the parent, which alone holds the replay cache and the firewall.
use fwknox.Base.{
  Bool, true, false, not, ◌&&◌, Option, none, some, List, [], ◌∷◌, String, any, if◌then◌else◌, ◌==◌,
  string_eq, Result, ok, err, ◌>>=◌, ◌>>◌, fail_if, nat_eq, list_eq, min,
}
use fwknox.Proto.Types.{
  IpAddr, PortProto, SpaMessage, access, nat, local_nat, command, SpaPayload, ip_eq, port_proto_eq,
}
use fwknox.Proto.Types.{Bytes}
use fwknox.Proto.Freshness.{validate_against_clock, default_max_skew_secs}
use fwknox.Config.Types.{as_secs, matches, AccessStanza, DaemonConfig}
use fwknox.Replay.Cache.{ReplayError, check_and_insert}
use fwknox.Daemon.Host.{
  Host, State, Moment, Reason, protocol, unsupported_message, source_mismatch, source_not_allowed,
  port_not_open, lookup_failed, now_unix, age_limit,
}
use fwknox.Daemon.Match.{MatchResult, matched, no_match, rejected, match_packet}
use fwknox.Daemon.Pipeline.{find_stanza, or_return, unwrap_or, comment_for}

-- The one variant of `CaptureMsg`.
pub record CaptureMsg : Type 0 where
  pub source_ip : IpAddr
  pub datagram : Bytes

pub data CryptoMsg : Type 0 where
  valid_request : (stanza_name : String) (source_ip : IpAddr) (payload : SpaPayload) → CryptoMsg
  rejected_request : (source_ip : IpAddr) (reason : Reason) → CryptoMsg
  no_match_msg : (source_ip : IpAddr) → CryptoMsg

unfoldable pub take_match_msg : IpAddr → MatchResult → Result CryptoMsg (String × SpaPayload)
take_match_msg ip (matched name payload) = ok (name, payload)
take_match_msg ip no_match = err (no_match_msg ip)
take_match_msg ip (rejected name reason) = err (rejected_request ip (protocol reason))

unfoldable pub take_access_msg : IpAddr → SpaMessage → Result CryptoMsg (IpAddr × List PortProto)
take_access_msg ip (access source ports) = ok (source, ports)
take_access_msg ip (nat source ports dest) = err (rejected_request ip unsupported_message)
take_access_msg ip (local_nat source ports dest) = err (rejected_request ip unsupported_message)
take_access_msg ip (command source line) = err (rejected_request ip unsupported_message)

unfoldable pub check_ports_msg :
    IpAddr → List PortProto → List PortProto → Result CryptoMsg (Unit {0})
check_ports_msg ip allowed [] = ok tt
check_ports_msg ip allowed (pp ∷ ports) = do
  fail_if (not (any (λ a. a == pp) allowed)) (rejected_request ip (port_not_open pp))
  check_ports_msg ip allowed ports

-- A function body whose error is an early return.
abbrev pub returned : {A : Type 0} → Result A A → A
returned (ok a) = a
returned (err a) = a

module _ (host : Host) where
  unfoldable pub validate_capture_msg : Moment → CaptureMsg → DaemonConfig → CryptoMsg
  validate_capture_msg m msg config = returned (do
    found ← take_match_msg msg.source_ip (match_packet host.crypto msg.datagram config.access)
    stanza ←
        or_return (find_stanza config.access found.0)
          (λ e. rejected_request msg.source_ip (lookup_failed found.0))
    or_return
        (validate_against_clock found.1 (now_unix m.unix)
          (age_limit (as_secs config.daemon.max_spa_packet_age)) default_max_skew_secs)
        (λ e. rejected_request msg.source_ip (protocol e))
    asked ← take_access_msg msg.source_ip found.1.message
    fail_if (stanza.require_source_match && not (asked.0 == msg.source_ip))
        (rejected_request msg.source_ip (source_mismatch asked.0 msg.source_ip))
    fail_if (not (any (λ s. matches host.contains s msg.source_ip) stanza.source))
        (rejected_request msg.source_ip (source_not_allowed msg.source_ip))
    check_ports_msg msg.source_ip stanza.open_ports asked.1
    ok (valid_request found.0 msg.source_ip found.1))

  -- The end of the parent's handler: the backend's result is only logged.
  unfoldable pub open_for :
      DaemonConfig
      → SpaPayload
      → IpAddr
      → List PortProto
      → Option AccessStanza
      → host.firewall.State
      → host.firewall.State
  open_for config payload source ports none rules = rules
  open_for config payload source ports (some stanza) rules =
      (host.firewall.open_access
        (record {
          source_ip = source;
          ports = ports;
          timeout =
              min (unwrap_or stanza.fw_timeout config.daemon.default_fw_timeout)
                config.daemon.max_fw_timeout;
          comment = comment_for payload;
        })
        rules).0

  unfoldable pub find_by_name : List AccessStanza → String → Option AccessStanza
  find_by_name [] name = none
  find_by_name (s ∷ rest) name =
      let later = find_by_name rest name in if s.name == name then some s else later

  unfoldable pub serve_request :
      DaemonConfig
      → String
      → SpaPayload
      → SpaMessage
      → Result ReplayError Bool
      → host.firewall.State
      → host.firewall.State
  serve_request config name payload (access source ports) (ok true) rules =
      open_for config payload source ports (find_by_name config.access name) rules
  serve_request config name payload (nat source ports dest) (ok true) rules = rules
  serve_request config name payload (local_nat source ports dest) (ok true) rules = rules
  serve_request config name payload (command source line) (ok true) rules = rules
  serve_request config name payload message (ok false) rules = rules
  serve_request config name payload message (err e) rules = rules

  unfoldable pub handle_crypto_msg : Moment → CryptoMsg → DaemonConfig → State host → State host
  handle_crypto_msg m (no_match_msg ip) config s = s
  handle_crypto_msg m (rejected_request ip reason) config s = s
  handle_crypto_msg m (valid_request name ip payload) config s =
      let (replay, fresh) =
        check_and_insert host.lru m.replay_now m.writes payload.nonce s.replay in
      record {
        replay = replay;
        rules = serve_request config name payload payload.message fresh s.rules;
      }

  -- The workers in a row: a datagram from the capture worker to the parent.
  unfoldable pub relay : Moment → DaemonConfig → CaptureMsg → State host → State host
  relay m config msg s = handle_crypto_msg m (validate_capture_msg m msg config) config s
