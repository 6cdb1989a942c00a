-- ===== src/Client/Ports.antt =====
-- The text of a list of ports, as the client's `--access` takes it: crates/fwknox-config/src/shared.rs
-- and crates/fwknox-client/src/packet.rs.
use fwknox.Base.{
  ◌≡◌, ◌≤◌, refl, true, false, not, List, [], ◌∷◌, map, arith, all, nat_beq, ok, nat_eq, list_eq,
}
use fwknox.Base.Text.{
  is_empty, is_empty-append, is_space, join, trim, to_ascii_lowercase, without, lacks,
  split_on-join, split_once-append, trim-word,
}
use fwknox.Base.Number.{
  decimal_text, is_empty-decimal_text, parse_uint-decimal_text, lacks-decimal_text,
  no_space-decimal_text, all-append,
}
use fwknox.Proto.Types.{Protocol, tcp, udp, PortProto}
use fwknox.Proto.Display.{protocol_text, port_proto_text}
use fwknox.Config.Parse.{parse_protocol, parse_port_proto}
use fwknox.Client.Packet.{parse_tokens, parse_access_string}

protocol-slash : (p : Protocol) → lacks 0x2f (protocol_text p) ≡ true
unfolding protocol_text
protocol-slash tcp = refl
protocol-slash udp = refl

protocol-comma : (p : Protocol) → lacks 0x2c (protocol_text p) ≡ true
unfolding protocol_text
protocol-comma tcp = refl
protocol-comma udp = refl

protocol-space : (p : Protocol) → without is_space (protocol_text p) ≡ true
unfolding protocol_text is_space
protocol-space tcp = refl
protocol-space udp = refl

protocol-full : (p : Protocol) → is_empty (protocol_text p) ≡ false
unfolding protocol_text
protocol-full tcp = refl
protocol-full udp = refl

parse_protocol_text : (p : Protocol) → parse_protocol (to_ascii_lowercase (protocol_text p)) ≡ ok p
unfolding protocol_text parse_protocol to_ascii_lowercase
parse_protocol_text tcp = refl
parse_protocol_text udp = refl

-- A port that is not 0.
pub record IsPort (pp : PortProto) : Type 0 where
  pub from_one : 1 ≤ pp.port
  pub to_max : pp.port ≤ 65_535

abbrev pub ArePorts : List PortProto → Type 0
ArePorts [] = Unit
ArePorts (pp ∷ pps) = IsPort pp × ArePorts pps

parse_port_proto_text : (pp : PortProto) → IsPort pp → parse_port_proto (port_proto_text pp) ≡ ok pp
unfolding parse_port_proto port_proto_text
parse_port_proto_text pp h =
    let number = decimal_text pp.port in
    rw
      (
        split_once-append 0x2f (protocol_text pp.proto) number (protocol-slash pp.proto),
        trim-word (protocol_text pp.proto) (protocol-full pp.proto) (protocol-space pp.proto),
        parse_protocol_text pp.proto,
        trim-word number (is_empty-decimal_text pp.port) (no_space-decimal_text pp.port),
        parse_uint-decimal_text 65_535 pp.port h.to_max (omega (arith, h.to_max)),
        not_zero,
      )
      refl
  where
    not_zero : nat_beq pp.port 0 ≡ false
    not_zero = ground (arith, h.from_one)

text-full : (pp : PortProto) → is_empty (port_proto_text pp) ≡ false
unfolding port_proto_text
text-full pp = is_empty-append (protocol_text pp.proto) (0x2f ∷ decimal_text pp.port) refl

text-trim : (pp : PortProto) → trim (port_proto_text pp) ≡ port_proto_text pp
unfolding port_proto_text is_space
text-trim pp = trim-word _ (text-full pp) (
    all-append (λ c. not (is_space c)) (protocol_text pp.proto) (0x2f ∷ decimal_text pp.port)
      (protocol-space pp.proto) (no_space-decimal_text pp.port))

text-comma : (pp : PortProto) → lacks 0x2c (port_proto_text pp) ≡ true
unfolding port_proto_text
text-comma pp =
    all-append (λ c. not (nat_beq c 0x2c)) (protocol_text pp.proto) (0x2f ∷ decimal_text pp.port)
      (protocol-comma pp.proto) (lacks-decimal_text 0x2c pp.port (omega arith))

parse_tokens_text :
    (pps : List PortProto) → ArePorts pps → parse_tokens (map port_proto_text pps) ≡ ok pps
unfolding parse_tokens
parse_tokens_text [] h = refl
parse_tokens_text (pp ∷ pps) h =
    rw (text-trim pp, text-full pp, parse_port_proto_text pp h.0, parse_tokens_text pps h.1) refl

all-comma : (pps : List PortProto) → all (λ v. lacks 0x2c v) (map port_proto_text pps) ≡ true
all-comma [] = refl
all-comma (pp ∷ pps) = ground (arith, text-comma pp, all-comma pps)

-- A list of at least one port, none of them 0, written with commas in between, is read back as that
-- list.
pub parse_access_string-join :
    (pp : PortProto) (pps : List PortProto)
    → ArePorts (pp ∷ pps)
    → parse_access_string (join 0x2c (map port_proto_text (pp ∷ pps))) ≡ ok (pp ∷ pps)
unfolding parse_access_string
parse_access_string-join pp pps h =
    rw
      (
        split_on-join 0x2c (port_proto_text pp) (map port_proto_text pps) (all-comma (pp ∷ pps)),
        parse_tokens_text (pp ∷ pps) h,
      )
      refl
