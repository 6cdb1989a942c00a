-- ===== src/Proto/Tests.antt =====
-- Runs of the protocol over the sample parameter, and the theorems at concrete packets.
use fwknox.Base.{◌≡◌, ◌↔◌, ◌≤◌, ◌+◌, refl, true, [], ◌∷◌, ◌++◌, arith, ok, err, length, replicate}
use fwknox.Base.Int.{pos}
use fwknox.Proto.Types.{Bytes, reserved_flag}
use fwknox.Proto.Header
use fwknox.Proto.Header.{Header, header_len}
use fwknox.Proto.Header.Laws
use fwknox.Proto.Header.Laws.{IsHeader, are_bytes}
use fwknox.Proto.Crypto.{derive, generate_nonce, aead_seal, aead_open, hmac_check}
use fwknox.Proto.Payload
use fwknox.Proto.Packet.{
  min_packet_len, max_packet_len, derive_flags, check_flags_match_payload, seal_signed,
  build_packet, open_signed, parse_packet,
}
use fwknox.Proto.Packet.Build.{build_packet_bounds}
use fwknox.Proto.Packet.Parse.{Accepted, parse_packet-Accepted}
use fwknox.Proto.Packet.RoundTrip.{parse_packet-build_packet}
use fwknox.Proto.Freshness.{validate_against_clock, IsFresh, validate_against_clock-IsFresh}
use fwknox.Proto.Sample.{toy, toy-IsSound, alice, key, wire}

program : Unit {0}
unfolding Header.encode Header.new Header.decode Header.flags_from_raw derive generate_nonce
    aead_seal aead_open hmac_check Payload.encode Payload.decode Payload.validate_structure
    derive_flags check_flags_match_payload seal_signed build_packet open_signed parse_packet
program = tt

build_alice : build_packet toy alice key ≡ ok wire
unfolding program
build_alice = refl

parse_alice : parse_packet toy wire key ≡ ok alice
unfolding program
parse_alice = refl

valid_alice : Payload.validate_structure alice ≡ ok tt
unfolding program
valid_alice = refl

decode_reserved : Header.decode (1 ∷ 0xf0 ∷ 0 ∷ 16 ∷ []) ≡ err (reserved_flag 0xf0)
unfolding program
decode_reserved = refl

parse_packet-build_packet_example : parse_packet toy wire key ≡ ok alice
parse_packet-build_packet_example =
    parse_packet-build_packet toy-IsSound alice key valid_alice build_alice

parse_packet-Accepted_example : Accepted toy wire key alice
parse_packet-Accepted_example = parse_packet-Accepted toy wire key parse_alice

abbrev header : Header
header = record { version = 1; flags = 5; payload_len = 300 }

header-IsHeader : IsHeader header
header-IsHeader = record { version = refl; flags = omega arith; payload_len = omega arith }

decode-encode_example : Header.decode (Header.encode header ++ (7 ∷ [])) ≡ ok header
decode-encode_example = Laws.decode-encode header (7 ∷ []) header-IsHeader

header-bytes : are_bytes (Header.encode header) ≡ true
unfolding program
header-bytes = refl

header-decoded : Header.decode (Header.encode header) ≡ ok header
unfolding program
header-decoded = refl

build_packet_bounds_example :
    (plaintext : Bytes) × (Payload.encode toy alice ≡ ok plaintext)
    × (length wire ≡ min_packet_len + length plaintext)
    × (min_packet_len ≤ length wire)
    × (length wire ≤ max_packet_len)
build_packet_bounds_example = build_packet_bounds toy alice key toy-IsSound build_alice

derived_keys : derive toy key ≡ ok (record { enc = replicate 32 45; hmac = replicate 32 46 })
unfolding program
derived_keys = refl

validate_against_clock-IsFresh_example :
    (validate_against_clock alice (pos 1_700_000_010) (pos 120) (pos 30) ≡ ok tt)
    ↔ IsFresh 1_700_000_010 120 30 alice.timestamp
validate_against_clock-IsFresh_example =
    validate_against_clock-IsFresh alice 1_700_000_010 120 30 (omega arith) (omega arith)
      (omega arith, omega arith)
