-- ===== src/Daemon/Steps.antt =====
-- The steps of `process_packet`, one equation for each way that it goes.
use fwknox.Base.{◌≡◌, refl, Result, ok, err, List, String, nat_eq, list_eq}
use fwknox.Proto.Types.{IpAddr, PortProto}
use fwknox.Config.Types.{DaemonConfig}
use fwknox.Replay.Cache.{check_and_insert}
use fwknox.Firewall.Backend.{RuleHandle, FirewallError}
use fwknox.Daemon.Host.{Host, State, Moment, CapturedPacket, Reason}
use fwknox.Daemon.Pipeline.{
  Request, Outcome, refused, authenticate, check_policy, access_rule, install, admit, after_replay,
  process_packet,
}

module _ (host : Host) (m : Moment) (config : DaemonConfig) (captured : CapturedPacket) where
  pub process_stop :
      (s : State host) {out : Outcome}
      → authenticate host m config captured ≡ err out
      → process_packet host m config captured s ≡ (s, out)
  unfolding process_packet
  process_stop s e = rw (e, process_packet) refl

  pub process_go :
      (s : State host) {r : Request}
      → authenticate host m config captured ≡ ok r
      → process_packet host m config captured s ≡ (
          let (replay, fresh) =
            check_and_insert host.lru m.replay_now m.writes r.payload.nonce s.replay in
          let (rules, out) = after_replay host config captured.source_ip r fresh s.rules in
          (record { replay = replay; rules = rules }, out))
  unfolding process_packet
  process_go s e = rw (e, process_packet) refl

  pub admit_refused :
      (r : Request) (rules : host.firewall.State) {reason : Reason}
      → check_policy host r.stanza captured.source_ip r.payload.message ≡ err reason
      → admit host config captured.source_ip r rules ≡ (rules, ok (refused r.stanza_name reason))
  unfolding admit
  admit_refused r rules e = rw (e, admit) refl

  pub admit_allowed :
      (r : Request) (rules : host.firewall.State) {asked : IpAddr × List PortProto}
      → check_policy host r.stanza captured.source_ip r.payload.message ≡ ok asked
      → admit host config captured.source_ip r rules
        ≡ install host r.stanza_name
            (host.firewall.open_access (access_rule config.daemon r.stanza r.payload asked) rules)
  unfolding admit
  admit_allowed r rules e = rw (e, admit) refl

  pub install-rules :
      (name : String) (x : host.firewall.State × Result FirewallError RuleHandle)
      → (install host name x).0 ≡ x.0
  unfolding install
  install-rules name (rules, ok h) = refl
  install-rules name (rules, err e) = refl
