-- ===== src/Proto/Packet/Parse.antt =====
-- What `parse_packet` has checked when it accepts, and when it answers `HmacFailed`.
use fwknox.Base.{
  ◌+◌, ◌-◌, ◌≡◌, ◌≢◌, ◌≤◌, ◌↔◌, ap, sym, ◌∙◌, true, false, not, arith, nat_beq, nat_beq_iff, ltb,
  ltb_of_le, length, take, drop, Result, ok, err, bind-ne-err, bind_then, guard_then, ok-injective,
  fail_if, is_some, length-drop, String,
}
use fwknox.Proto.Types.{Bytes, SpaPayload, ProtoError, payload_decode, hmac_failed}
use fwknox.Proto.Header
use fwknox.Proto.Header.{Header, header_len}
use fwknox.Proto.Crypto.{Crypto, nonce_len, hmac_len, DerivedKeys, derive, aead_open, hmac_check}
use fwknox.Proto.Payload
use fwknox.Proto.Payload.{or_error, validate_structure}
use fwknox.Proto.Packet.Wire.{
  master_key_len, min_packet_len, max_packet_len, derive_flags, check_flags_match_payload,
  open_signed, parse_packet,
}

-- Everything before the trailing tag, and the tag.
abbrev pub signed_part : Bytes → Bytes
signed_part wire = take (length wire - hmac_len) wire

abbrev pub tag_part : Bytes → Bytes
tag_part wire = drop (length wire - hmac_len) wire

abbrev pub flags_of : SpaPayload → Header.Flags
flags_of p = derive_flags p.message (is_some p.client_timeout)

-- The checks on the signed part of an accepted packet.
pub record Opened (c : Crypto) (keys : DerivedKeys) (signed : Bytes) (payload : SpaPayload)
    : Type 0 where
  pub header : Header
  pub plaintext : Bytes
  pub headed : Header.decode (take header_len signed) ≡ ok header
  pub sized : length (drop (header_len + nonce_len) signed) ≡ header.payload_len
  pub opened :
      aead_open c keys.enc
        (take nonce_len (drop header_len signed))
        (take header_len signed)
        (drop (header_len + nonce_len) signed)
      ≡ ok plaintext
  pub decoded : c.from_slice plaintext ≡ ok payload
  pub structured : validate_structure payload ≡ ok tt
  pub flagged : header.flags ≡ flags_of payload

-- The checks behind an accepted packet.
pub record Accepted (c : Crypto) (wire master_key : Bytes) (payload : SpaPayload) : Type 0 where
  pub keys : DerivedKeys
  pub key_length : length master_key ≡ master_key_len
  pub long : min_packet_len ≤ length wire
  pub short : length wire ≤ max_packet_len
  pub derived : derive c master_key ≡ ok keys
  pub authentic : c.hmac_verify keys.hmac (signed_part wire) (tag_part wire) ≡ true
  pub opened : Opened c keys (signed_part wire) payload

or_error-eq-ok :
    {A : Type 0} (r : Result String A) (f : String → ProtoError) {a : A}
    → or_error r f ≡ ok a
    → r ≡ ok a
or_error-eq-ok (ok a) f h = cc
or_error-eq-ok (err e) f h = cc

module _ (c : Crypto) where
  hmac_check-eq-ok :
      (k m t : Bytes) {u : Unit {0}} → hmac_check c k m t ≡ ok u → c.hmac_verify k m t ≡ true
  unfolding hmac_check
  hmac_check-eq-ok k m t h = ground arith

  payload_decode-eq-ok :
      (b : Bytes) {p : SpaPayload}
      → Payload.decode c b ≡ ok p
      → (c.from_slice b ≡ ok p) × (validate_structure p ≡ ok tt)
  unfolding Payload.decode
  payload_decode-eq-ok b {p} h =
      bind_then (or_error (c.from_slice b) payload_decode) _ h λ q read h1.
        bind_then (validate_structure q) _ h1 λ u valid h2.
          let same : q ≡ p = ok-injective h2 in
          (or_error-eq-ok _ _ read ∙ ap ok same, ap validate_structure (sym same) ∙ valid)

  pub open_signed-Opened :
      (keys : DerivedKeys) (signed : Bytes) {payload : SpaPayload}
      → open_signed c keys signed ≡ ok payload
      → Opened c keys signed payload
  unfolding open_signed check_flags_match_payload
  open_signed-Opened keys signed {payload} h =
      let ciphertext = drop (header_len + nonce_len) signed in
      bind_then (Header.decode (take header_len signed)) _ h λ header headed h1.
        guard_then (not (nat_beq (length ciphertext) header.payload_len)) _ _ h1 λ sized h2.
          bind_then (aead_open c keys.enc _ _ ciphertext) _ h2 λ plaintext opened h3.
            bind_then (Payload.decode c plaintext) _ h3 λ p decoded h4.
              guard_then (not (nat_beq header.flags (flags_of p))) _ _ h4 λ flagged h5.
                let same : p ≡ payload = ok-injective h5 in
                let (read, structured) = payload_decode-eq-ok plaintext (decoded ∙ ap ok same) in
                record {
                  header = header;
                  plaintext = plaintext;
                  headed = headed;
                  sized = ground arith;
                  opened = opened;
                  decoded = read;
                  structured = structured;
                  flagged = rw (← same) (ground arith);
                }

  -- `parse_packet` accepts only a packet of admissible length, under a key of 32 bytes, whose HMAC
  -- verifies over all that precedes it, whose header decodes, states the length of the ciphertext
  -- and fits the payload in its flags, and whose ciphertext opens, with the header as associated
  -- data, to the encoding of a structurally valid payload, the one returned.
  pub parse_packet-Accepted :
      (wire master_key : Bytes) {payload : SpaPayload}
      → parse_packet c wire master_key ≡ ok payload
      → Accepted c wire master_key payload
  unfolding parse_packet
  parse_packet-Accepted wire master_key {payload} h =
      guard_then (not (nat_beq (length master_key) master_key_len)) _ _ h λ g1 h1.
        guard_then (ltb (length wire) min_packet_len) _ _ h1 λ g2 h2.
          guard_then (ltb max_packet_len (length wire)) _ _ h2 λ g3 h3.
            bind_then (derive c master_key) _ h3 λ keys derived h4.
              bind_then (hmac_check c keys.hmac (signed_part wire) (tag_part wire)) _ h4
                λ u verified h5. record {
                  keys = keys;
                  key_length = ground arith;
                  long = ground arith;
                  short = ground arith;
                  derived = derived;
                  authentic = hmac_check-eq-ok _ _ _ verified;
                  opened = open_signed-Opened keys (signed_part wire) h5;
                }

  -- No step behind the HMAC check answers `HmacFailed`.
  decode-ne-hmac_failed : (b : Bytes) → Header.decode b ≢ err hmac_failed
  unfolding Header.decode Header.flags_from_raw
  decode-ne-hmac_failed b = ground arith

  aead_open-ne-hmac_failed : (k n a t : Bytes) → aead_open c k n a t ≢ err hmac_failed
  unfolding aead_open
  aead_open-ne-hmac_failed k n a t = ground arith

  payload_decode-ne-hmac_failed : (b : Bytes) → Payload.decode c b ≢ err hmac_failed
  unfolding Payload.decode validate_structure
  payload_decode-ne-hmac_failed b = ground arith

  open_signed-ne-hmac_failed :
      (keys : DerivedKeys) (signed : Bytes) → open_signed c keys signed ≢ err hmac_failed
  unfolding open_signed check_flags_match_payload
  open_signed-ne-hmac_failed keys signed =
      bind-ne-err (Header.decode (take header_len signed)) _ (decode-ne-hmac_failed _) λ header.
        bind-ne-err (fail_if _ _) _ (ground arith) λ u.
          bind-ne-err (aead_open c keys.enc _ _ _) _ (aead_open-ne-hmac_failed _ _ _ _) λ plaintext.
            bind-ne-err (Payload.decode c plaintext) _ (payload_decode-ne-hmac_failed plaintext)
              λ p. ground arith

  -- For a packet of admissible size and a key of 32 bytes whose subkeys derive, `HmacFailed` is
  -- the answer exactly when the tag does not verify under the HMAC subkey: a stanza is passed over
  -- for no other fault.
  parse_packet-hmac_failed :
      (wire master_key : Bytes) {keys : DerivedKeys}
      → length master_key ≡ master_key_len
      → min_packet_len ≤ length wire
      → length wire ≤ max_packet_len
      → derive c master_key ≡ ok keys
      → (parse_packet c wire master_key ≡ err hmac_failed)
        ↔ (c.hmac_verify keys.hmac (signed_part wire) (tag_part wire) ≡ false)
  unfolding parse_packet hmac_check
  parse_packet-hmac_failed wire master_key {keys} key long short derived =
      rw
        (
          (nat_beq_iff _ _).1 key,
          ltb_of_le _ _ long,
          ltb_of_le _ _ short,
          derived,
          (nat_beq_iff (length (tag_part wire)) hmac_len).1
              (omega (arith, length-drop (length wire - hmac_len) wire)),
        )
        (ground (arith, open_signed-ne-hmac_failed keys (signed_part wire)))
