-- ===== src/Proto/Display.antt =====
-- `Display` of the protocols and ports: crates/fwknox-proto/src/types.rs; and the standard
-- library's of an IPv4 address.
use fwknox.Base.{◌∷◌, ◌++◌, map}
use fwknox.Base.Text.{Text, codes, join}
use fwknox.Base.Number.{decimal_text}
use fwknox.Proto.Types.{Bytes, Protocol, tcp, udp, PortProto}

unfoldable pub protocol_text : Protocol → Text
protocol_text tcp = codes "tcp"
protocol_text udp = codes "udp"

unfoldable pub port_proto_text : PortProto → Text
port_proto_text pp = protocol_text pp.proto ++ (0x2f ∷ decimal_text pp.port)

unfoldable pub ipv4_text : Bytes → Text
ipv4_text octets = join 0x2e (map decimal_text octets)
