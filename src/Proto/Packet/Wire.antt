-- ===== src/Proto/Packet/Wire.antt =====
-- `build_packet` and `parse_packet` of packet.rs.
use fwknox.Base.{
  ℕ, ◌+◌, ◌-◌, Bool, not, ◌++◌, nat_beq, ltb, length, take, drop, Result, ok, ◌>>=◌, ◌>>◌, fail_if,
  is_some, if◌then◌else◌,
}
use fwknox.Proto.Types.{
  Bytes, SpaMessage, access, nat, local_nat, command, SpaPayload, ProtoError, packet_too_short,
  packet_too_long, invalid_field,
}
use fwknox.Proto.Header
use fwknox.Proto.Header.{
  Flags, Header, header_len, flag_nat, flag_command, flag_client_timeout, flags_set,
}
use fwknox.Proto.Crypto.{
  Crypto, nonce_len, tag_len, hmac_len, DerivedKeys, derive, generate_nonce, aead_seal, aead_open,
  hmac_check,
}
use fwknox.Proto.Payload

abbrev pub master_key_len : ℕ
master_key_len = 32

abbrev pub max_packet_len : ℕ
max_packet_len = 1500

abbrev pub min_packet_len : ℕ
min_packet_len = header_len + nonce_len + tag_len + hmac_len

-- `u16::try_from`
abbrev pub u16_max : ℕ
u16_max = 65535

abbrev message_flags : SpaMessage → Flags
unfolding flags_set
message_flags (access source_ip ports) = 0
message_flags (nat source_ip ports nat_dest) = flags_set 0 flag_nat
message_flags (local_nat source_ip ports nat_dest) = flags_set 0 flag_nat
message_flags (command source_ip command_line) = flags_set 0 flag_command

unfoldable pub derive_flags : SpaMessage → Bool → Flags
unfolding message_flags flags_set
derive_flags message has_client_timeout =
    if has_client_timeout
    then flags_set (message_flags message) flag_client_timeout
    else message_flags message

unfoldable pub check_flags_match_payload : Flags → SpaPayload → Result ProtoError (Unit {0})
check_flags_match_payload flags payload =
    fail_if (not (nat_beq flags (derive_flags payload.message (is_some payload.client_timeout))))
      (invalid_field "flag/payload mismatch")

module _ (c : Crypto) where
  -- The part of `build_packet` below the header: seal, lay out, sign.
  unfoldable pub seal_signed : DerivedKeys → Bytes → Bytes → Bytes → Result ProtoError Bytes
  seal_signed keys header_bytes nonce plaintext = do
    ciphertext ← aead_seal c keys.enc nonce header_bytes plaintext
    let packet = header_bytes ++ (nonce ++ ciphertext)
    ok (packet ++ c.hmac keys.hmac packet)

  unfoldable pub build_packet : SpaPayload → Bytes → Result ProtoError Bytes
  build_packet payload master_key = do
    fail_if (not (nat_beq (length master_key) master_key_len))
        (invalid_field "master_key must be 32 bytes")
    plaintext ← Payload.encode c payload
    nonce ← generate_nonce c
    let flags = derive_flags payload.message (is_some payload.client_timeout)
    fail_if (ltb u16_max (length plaintext + tag_len))
        (packet_too_long (length plaintext + tag_len) u16_max)
    let header_bytes = Header.encode (Header.new flags (length plaintext + tag_len))
    keys ← derive c master_key
    packet ← seal_signed keys header_bytes nonce plaintext
    fail_if (ltb max_packet_len (length packet)) (packet_too_long (length packet) max_packet_len)
    ok packet

  -- The part of `parse_packet` below the HMAC: header, decryption, payload, cross-check.
  unfoldable pub open_signed : DerivedKeys → Bytes → Result ProtoError SpaPayload
  open_signed keys signed = do
    header ← Header.decode (take header_len signed)
    let nonce = take nonce_len (drop header_len signed)
    let ciphertext = drop (header_len + nonce_len) signed
    fail_if (not (nat_beq (length ciphertext) header.payload_len))
        (invalid_field "payload_len mismatch")
    plaintext ← aead_open c keys.enc nonce (take header_len signed) ciphertext
    payload ← Payload.decode c plaintext
    check_flags_match_payload header.flags payload
    ok payload

  unfoldable pub parse_packet : Bytes → Bytes → Result ProtoError SpaPayload
  parse_packet wire master_key = do
    fail_if (not (nat_beq (length master_key) master_key_len))
        (invalid_field "master_key must be 32 bytes")
    fail_if (ltb (length wire) min_packet_len) (packet_too_short (length wire) min_packet_len)
    fail_if (ltb max_packet_len (length wire)) (packet_too_long (length wire) max_packet_len)
    let signed = take (length wire - hmac_len) wire
    let tag = drop (length wire - hmac_len) wire
    keys ← derive c master_key
    hmac_check c keys.hmac signed tag
    open_signed keys signed
