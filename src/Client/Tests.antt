-- ===== src/Client/Tests.antt =====
-- A command line, from its arguments to the firewall of a daemon.
use fwknox.Base.{
  ◌≡◌, refl, true, false, none, some, [], ◌∷◌, map, arith, ok, nat_eq, list_eq, string_eq,
}
use fwknox.Base.Text.{
  codes, join, split_where, split_on, split_once, trim, trim_start, trim_end, is_space,
  to_ascii_lowercase,
}
use fwknox.Base.Number.{parse_uint, at_most, parse_signed, parse_digits, is_digit}
use fwknox.Base.Lru.{list_lru}
use fwknox.Base.Assoc.{lookup}
use fwknox.Proto.Types.{udp, PortProto, ip_eq, port_proto_eq}
use fwknox.Proto.Header
use fwknox.Proto.Crypto.{derive, derive_one, aead_seal, generate_nonce}
use fwknox.Proto.Payload
use fwknox.Proto.Payload.{validate_structure}
use fwknox.Proto.Packet.{derive_flags, build_packet, seal_signed}
use fwknox.Proto.Display.{port_proto_text}
use fwknox.Proto.Sample.{toy-IsSound, key, ssh, wire, alice}
use fwknox.Config.Sample.{home, config}
use fwknox.Config.Types.{matches}
use fwknox.Config.Parse.{parse_protocol, parse_port_proto}
use fwknox.Replay.Cache.{Store, check_and_insert, save_or_roll_back}
use fwknox.Daemon.Pipeline.{install, process_packet}
use fwknox.Daemon.Sample.{host, moment, client, started}
use fwknox.Client.Packet.{
  Cli, Surroundings, parse_tokens, parse_access_string, resolve_ports, resolve_username,
  current_unix, random_nonce, as_u32, resolve_timeout, decode_master_key, resolve_master_key,
  resolve_source_ip, build_spa_packet,
}
use fwknox.Client.Built.{asked_payload, IsAsked}
use fwknox.Client.Ports.{parse_access_string-join}
use fwknox.Client.Admitted.{lasting, tools, AreClose, IsInvited, process_packet-build_spa_packet}

abbrev wireguard : PortProto
wireguard = record { proto = udp; port = 51820 }

parse_access_string-join_example :
    parse_access_string (join 0x2c (map port_proto_text (ssh ∷ wireguard ∷ [])))
    ≡ ok (ssh ∷ wireguard ∷ [])
parse_access_string-join_example = parse_access_string-join ssh (wireguard ∷ []) (
  record { from_one = omega arith; to_max = omega arith },
  (record { from_one = omega arith; to_max = omega arith }, tt),
)

abbrev cli : Cli
cli = record {
  name = none;
  destination = some (codes "home.example.org");
  port = none;
  access = some (codes "tcp/22");
  source_ip = some (codes "192.168.1.5");
  username = none;
  timeout = some 60;
  master_key_base64 = some (codes "QkJCQkJCQkJCQkJCQkJCQkJCQkJCQkJCQkJCQkJCQkI=");
  config = none;
  test = false;
  generate_key = false;
}

abbrev env : Surroundings
env = record { user = some "alice"; unix = 1_700_000_000; random = some alice.nonce }

args : Unit {0}
unfolding resolve_master_key decode_master_key resolve_ports parse_access_string parse_tokens
    split_on split_where trim trim_start trim_end is_space parse_port_proto split_once
    parse_protocol to_ascii_lowercase parse_uint at_most parse_signed parse_digits is_digit
    resolve_source_ip
args = tt

asked :
    IsAsked
      (tools host moment config (λ b. some key) (λ s. some client.source_ip) env cli none)
      env
      cli
      none
      key
      (ssh ∷ [])
      client.source_ip
      alice.nonce
unfolding args
asked = record {
  key_resolved = refl;
  ports_resolved = refl;
  source_resolved = refl;
  nonce_drawn = refl;
}

built :
    build_spa_packet
      (tools host moment config (λ b. some key) (λ s. some client.source_ip) env cli none)
      env
      cli
      none
    ≡ ok wire
unfolding args build_spa_packet random_nonce current_unix resolve_username resolve_timeout as_u32
    build_packet Payload.encode derive_flags derive derive_one generate_nonce aead_seal Header.new
    Header.encode seal_signed
built = refl

abbrev after_check : Store list_lru
after_check =
    (check_and_insert list_lru moment.replay_now moment.writes alice.nonce started.replay).0

accepted :
    check_and_insert list_lru moment.replay_now moment.writes alice.nonce started.replay
    ≡ (after_check, ok true)
unfolding check_and_insert save_or_roll_back lookup
accepted = refl

admissible :
    validate_structure (
      asked_payload
        (tools host moment config (λ b. some key) (λ s. some client.source_ip) env cli none)
        env
        cli
        none
        (ssh ∷ [])
        client.source_ip
        alice.nonce)
    ≡ ok tt
unfolding validate_structure resolve_username
admissible = refl

close : AreClose host moment config (λ b. some key) (λ s. some client.source_ip) env cli none
close = record {
  client_clock = omega arith;
  daemon_clock = omega arith;
  limit = omega arith;
  not_ahead = omega arith;
  not_behind = omega arith;
}

invited :
    IsInvited host moment config
      (λ b. some key)
      (λ s. some client.source_ip)
      env
      cli
      none
      home
      client.source_ip
      client.source_ip
      (ssh ∷ [])
unfolding matches
invited = record { same_source = refl; in_sources = refl; in_ports = refl }

process_packet-build_spa_packet_example :
    let p =
      asked_payload
        (tools host moment config (λ b. some key) (λ s. some client.source_ip) env cli none)
        env
        cli
        none
        (ssh ∷ [])
        client.source_ip
        alice.nonce in
    let opened =
      host.firewall.open_access (lasting config home p client.source_ip (ssh ∷ [])) started.rules in
    process_packet host moment config client started ≡ (
      record { replay = after_check; rules = (install host home.name opened).0 },
      (install host home.name opened).1,
    )
process_packet-build_spa_packet_example =
    process_packet-build_spa_packet host moment config (λ b. some key) (λ s. some client.source_ip)
      env cli none home [] (ssh ∷ []) client.source_ip alice.nonce client started after_check
      toy-IsSound asked built admissible close refl invited accepted
