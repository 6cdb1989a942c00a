-- ===== src/Config/Parse.antt =====
-- The texts of the configuration: crates/fwknox-config/src/shared.rs, and the bounded lists of
-- daemon.rs. An error keeps which check has failed. Serde hands over the strings; the parsers of the
-- crate `ipnet` and of the standard library's addresses are parameters.
use fwknox.Base.{
  ℕ, Option, none, some, List, [], ◌∷◌, ltb, length, nat_beq, ◌==◌, nat_eq, list_eq, Result, ok,
  err, ◌>>=◌, ◌>>◌, fail_if, ok_or, not, if◌then◌else◌,
}
use fwknox.Base.Text.{Text, codes, trim, to_ascii_lowercase, split_once}
use fwknox.Base.Number.{parse_uint}
use fwknox.Proto.Types.{Bytes, IpAddr, Protocol, tcp, udp, PortProto}
use fwknox.Config.Types.{IpNet, SourceSpec, any_source, cidr, single, AccessStanza}

pub data ParseError : Type 0 where
  bad_source : Text → ParseError
  no_slash : Text → ParseError
  unknown_protocol : Text → ParseError
  bad_port : Text → ParseError
  zero_port : ParseError
  bad_base64 : Text → ParseError
  bad_key_length : ℕ → ParseError
  too_many : (count max : ℕ) → ParseError

-- `s.parse::<IpNet>()` and `s.parse::<IpAddr>()`.
pub record AddrParser : Type 0 where
  pub parse_net : Text → Option IpNet
  pub parse_ip : Text → Option IpAddr

module _ (p : AddrParser) where
  unfoldable pub parse_address : Text → Option IpNet → Option IpAddr → Result ParseError SourceSpec
  parse_address s (some net) ip = ok (cidr net)
  parse_address s none (some ip) = ok (single ip)
  parse_address s none none = err (bad_source s)

  -- `SourceSpec::from_str`
  unfoldable pub parse_source : Text → Result ParseError SourceSpec
  parse_source raw =
      let s = trim raw in
      if to_ascii_lowercase s == codes "any"
      then ok any_source
      else parse_address s (p.parse_net s) (p.parse_ip s)

unfoldable pub parse_protocol : Text → Result ParseError Protocol
parse_protocol s =
    if s == codes "tcp"
    then ok tcp
    else if s == codes "udp"
    then ok udp
    else err (unknown_protocol s)

unfoldable pub parse_port_proto : Text → Result ParseError PortProto
parse_port_proto s = do
  halves ← ok_or (split_once 0x2f s) (no_slash s)
  proto ← parse_protocol (to_ascii_lowercase (trim halves.0))
  port ← ok_or (parse_uint 65_535 (trim halves.1)) (bad_port halves.1)
  fail_if (nat_beq port 0) zero_port
  ok (record { proto = proto; port = port })

abbrev pub max_ports_per_stanza : ℕ
max_ports_per_stanza = 1024

abbrev pub max_sources_per_stanza : ℕ
max_sources_per_stanza = 1024

abbrev pub max_access_stanzas : ℕ
max_access_stanzas = 256

unfoldable pub parse_ports : List Text → Result ParseError (List PortProto)
parse_ports [] = ok []
parse_ports (s ∷ strings) = do pp ← parse_port_proto s; pps ← parse_ports strings; ok (pp ∷ pps)

-- `PortProtoList::deserialize`, from the strings on.
unfoldable pub port_proto_list : List Text → Result ParseError (List PortProto)
port_proto_list strings = do
  fail_if (ltb max_ports_per_stanza (length strings))
      (too_many (length strings) max_ports_per_stanza)
  parse_ports strings

-- `BoundedSources::deserialize` and `BoundedAccess::deserialize`, from the list on.
unfoldable pub bounded_sources : List SourceSpec → Result ParseError (List SourceSpec)
bounded_sources v = do
  fail_if (ltb max_sources_per_stanza (length v)) (too_many (length v) max_sources_per_stanza)
  ok v

unfoldable pub bounded_access : List AccessStanza → Result ParseError (List AccessStanza)
bounded_access v = do
  fail_if (ltb max_access_stanzas (length v)) (too_many (length v) max_access_stanzas)
  ok v

-- `Base64Key::deserialize`, from the string on; `decode_b64` is the decoder of the crate `base64`.
unfoldable pub base64_key : (decode_b64 : Text → Option Bytes) → Text → Result ParseError Bytes
base64_key decode_b64 s = do
  bytes ← ok_or (decode_b64 s) (bad_base64 s)
  fail_if (not (nat_beq (length bytes) 32)) (bad_key_length (length bytes))
  ok bytes
