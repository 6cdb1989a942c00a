-- ===== src/Daemon/Tests.antt =====
-- Packets at concrete daemons: a run, and the theorems at a packet that opens the firewall.
use fwknox.Base.{ok, ◌≡◌, refl, [], ◌∷◌, arith, nat_eq, list_eq}
use fwknox.Base.Int.{sub_i64}
use fwknox.Base.Assoc.{lookup, erase}
use fwknox.Base.Decimal.{decimal, decimal_go}
use fwknox.Base.Text.{codes}
use fwknox.Base.Number.{decimal_text, decimal_digits}
use fwknox.Base.Lru.{put_entry}
use fwknox.Proto.Header
use fwknox.Proto.Crypto.{derive, aead_open, hmac_check}
use fwknox.Proto.Payload
use fwknox.Proto.Packet.{derive_flags, check_flags_match_payload, open_signed, parse_packet}
use fwknox.Proto.Freshness.{validate_against_clock}
use fwknox.Proto.Sample.{alice}
use fwknox.Config.Types.{AccessStanza, matches}
use fwknox.Replay.Cache.{check_and_insert, save_or_roll_back}
use fwknox.Firewall.Mock.{mock_open, mock_id}
use fwknox.Firewall.Backend.{handle}
use fwknox.Daemon.Host.{now_unix, age_limit}
use fwknox.Daemon.Match.{matched, try_stanza, match_packet}
use fwknox.Daemon.Pipeline.{
  installed, take_match, find_stanza, authenticate, check_policy, take_access, check_ports,
  clamp_timeout, comment_for, access_rule, install, admit, after_replay,
}
use fwknox.Daemon.Owner.{IsOwner, match_packet-IsOwner}
use fwknox.Base.{subst, ok-injective}
use fwknox.Base.Int.{IsI64}
use fwknox.Proto.Types.{Bytes, SpaPayload}
use fwknox.Proto.Packet.Parse.{Accepted}
use fwknox.Proto.Freshness.{IsFresh}
use fwknox.Daemon.Fresh.{process_packet-IsFresh}
use fwknox.Daemon.Again.{serve, process_packet-once}
use fwknox.Base.Lru.{list_lru-IsLru}
use fwknox.Proto.Sample.{toy, wire}
use fwknox.Config.Sample.{config}
use fwknox.Daemon.Pipeline.{process_packet}
use fwknox.Daemon.Privsep.{relay}
use fwknox.Daemon.Served.{Served, process_packet-Served}
use fwknox.Daemon.Sample.{host, usable, moment, client, stranger, later, started, started-IsStore}
use fwknox.Daemon.Relay.{process_packet-relay}

process_packet-Served_example :
    let (s, out) = process_packet host moment config client started in
    Served host list_lru-IsLru moment config client started s out
process_packet-Served_example =
    process_packet-Served host list_lru-IsLru moment config client usable started started-IsStore

process_packet-relay_example :
    (process_packet host moment config client started).0.rules
    ≡ (relay host moment config
        (record { source_ip = client.source_ip; datagram = wire })
        started).rules
process_packet-relay_example = process_packet-relay host moment config client.source_ip wire started

unfoldable pub program : Unit {0}
unfolding Header.encode Header.new Header.decode Header.flags_from_raw derive aead_open hmac_check
    Payload.decode Payload.validate_structure derive_flags check_flags_match_payload open_signed
    parse_packet try_stanza match_packet take_match find_stanza validate_against_clock sub_i64
    now_unix age_limit authenticate check_policy take_access check_ports matches clamp_timeout
    comment_for access_rule install admit after_replay process_packet check_and_insert
    save_or_roll_back lookup put_entry mock_open mock_id decimal decimal_go decimal_text
    decimal_digits erase
program = tt

pub opened :
    (process_packet host moment config client started).1
    ≡ ok (installed "home" (handle (codes "mock-0")))
unfolding program
opened = refl

process_packet-once_example :
    let s =
      serve host list_lru-IsLru config
        ((moment, stranger) ∷ [])
        (process_packet host moment config client started).0 in
    (process_packet host later config client s).0.rules ≡ s.rules
process_packet-once_example =
    process_packet-once host list_lru-IsLru config moment later client client
      ((moment, stranger) ∷ []) started usable started-IsStore refl opened (omega arith)

matched_alice : match_packet toy wire config.access ≡ matched "home" alice
unfolding program
matched_alice = refl

match_packet-IsOwner_example : (s : AccessStanza) × IsOwner toy wire config.access "home" alice s
match_packet-IsOwner_example = match_packet-IsOwner toy wire config.access usable matched_alice

pub toy-IsI64 : (b : Bytes) (p : SpaPayload) → toy.from_slice b ≡ ok p → IsI64 p.timestamp
toy-IsI64 b p e = subst (λ q. IsI64 q.timestamp) (ok-injective e) (omega arith, omega arith)

process_packet-IsFresh_example :
    (stanza : AccessStanza) × (payload : SpaPayload) × IsOwner toy wire config.access "home" payload
      stanza
    × Accepted toy wire stanza.master_key payload
    × IsFresh 1_700_000_010 120 30 payload.timestamp
process_packet-IsFresh_example =
    process_packet-IsFresh host list_lru-IsLru config moment client started usable (omega arith)
      (omega arith) toy-IsI64 opened
