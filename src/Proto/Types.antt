-- ===== src/Proto/Types.antt =====
-- crates/fwknox-proto/src/types.rs, payload.rs and error.rs: the values that a packet carries, and
-- the errors. `IpAddr` and `SocketAddr` are the standard library's, by their octets.
use fwknox.Base.{
  ℕ, ◌≡◌, ◌↔◌, Bool, true, false, ◌&&◌, Option, List, String, arith, PartialEq, list_beq_iff, ◌==◌,
  nat_eq, list_eq,
}
use fwknox.Base.Int.{ℤ}

abbrev pub Bytes : Type 0
Bytes = List ℕ

pub data IpAddr : Type 0 where
  v4 : Bytes → IpAddr
  v6 : Bytes → IpAddr

pub record SocketAddr : Type 0 where
  pub ip : IpAddr
  pub port : ℕ

pub data Protocol : Type 0 where
  tcp udp : Protocol

pub record PortProto : Type 0 where
  pub proto : Protocol
  pub port : ℕ

pub data SpaMessage : Type 0 where
  access : (source_ip : IpAddr) (ports : List PortProto) → SpaMessage
  nat : (source_ip : IpAddr) (ports : List PortProto) (nat_dest : SocketAddr) → SpaMessage
  local_nat : (source_ip : IpAddr) (ports : List PortProto) (nat_dest : SocketAddr) → SpaMessage
  command : (source_ip : IpAddr) (command : String) → SpaMessage

pub record SpaPayload : Type 0 where
  pub nonce : Bytes
  pub timestamp : ℤ
  pub username : String
  pub message : SpaMessage
  pub client_timeout : Option ℕ

pub data ProtoError : Type 0 where
  packet_too_short : (got need : ℕ) → ProtoError
  packet_too_long : (got max : ℕ) → ProtoError
  unsupported_version : ℕ → ProtoError
  reserved_flag : ℕ → ProtoError
  hmac_failed : ProtoError
  aead_failed : ProtoError
  payload_decode : String → ProtoError
  payload_encode : String → ProtoError
  hkdf_failed : ProtoError
  invalid_field : String → ProtoError
  packet_too_old : (age_secs max_secs : ℤ) → ProtoError
  packet_in_future : (skew_secs : ℤ) → ProtoError

abbrev pub protocol_beq : Protocol → Protocol → Bool
protocol_beq tcp tcp = true
protocol_beq tcp udp = false
protocol_beq udp tcp = false
protocol_beq udp udp = true

pub protocol_beq_iff : (a b : Protocol) → (protocol_beq a b ≡ true) ↔ (a ≡ b)
protocol_beq_iff tcp tcp = ground arith
protocol_beq_iff tcp udp = ground arith
protocol_beq_iff udp tcp = ground arith
protocol_beq_iff udp udp = ground arith

instance abbrev pub protocol_eq : PartialEq Protocol
protocol_eq = record { test = protocol_beq; decides = protocol_beq_iff }

abbrev pub port_proto_beq : PortProto → PortProto → Bool
port_proto_beq a b = (a.proto == b.proto) && (a.port == b.port)

pub port_proto_beq_iff : (a b : PortProto) → (port_proto_beq a b ≡ true) ↔ (a ≡ b)
port_proto_beq_iff a b = ground (arith, protocol_beq_iff a.proto b.proto)

instance abbrev pub port_proto_eq : PartialEq PortProto
port_proto_eq = record { test = port_proto_beq; decides = port_proto_beq_iff }

abbrev pub ip_beq : IpAddr → IpAddr → Bool
ip_beq (v4 a) (v4 b) = a == b
ip_beq (v4 a) (v6 b) = false
ip_beq (v6 a) (v4 b) = false
ip_beq (v6 a) (v6 b) = a == b

pub ip_beq_iff : (a b : IpAddr) → (ip_beq a b ≡ true) ↔ (a ≡ b)
ip_beq_iff (v4 a) (v4 b) = ground (arith, list_beq_iff a b)
ip_beq_iff (v4 a) (v6 b) = ground arith
ip_beq_iff (v6 a) (v4 b) = ground arith
ip_beq_iff (v6 a) (v6 b) = ground (arith, list_beq_iff a b)

instance abbrev pub ip_eq : PartialEq IpAddr
ip_eq = record { test = ip_beq; decides = ip_beq_iff }
