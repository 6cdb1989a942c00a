-- ===== src/Proto/Packet/RoundTrip.antt =====
-- A packet that `build_packet` makes is one that `parse_packet` reads.
use fwknox.Base.{
  ◌+◌, ◌-◌, ◌≡◌, refl, ap, ◌∙◌, not, [], ◌++◌, arith, nat_beq, nat_beq_iff, ltb_of_le, length, take,
  drop, ok, >>=-eq-ok, fail_if-eq-ok, ok_or-eq-ok, fail_if, is_some, length-append, take-append,
  drop-append,
}
use fwknox.Proto.Types.{Bytes, SpaPayload}
use fwknox.Proto.Header
use fwknox.Proto.Header.{Header, header_len}
use fwknox.Proto.Header.Laws.{IsHeader, decode-encode}
use fwknox.Proto.Crypto.{
  Crypto, IsSound, key_len, nonce_len, tag_len, hmac_len, aead_seal, aead_open, hmac_check,
}
use fwknox.Proto.Payload
use fwknox.Proto.Payload.{or_error, max_encoded_len, validate_structure}
use fwknox.Proto.Packet.Wire.{check_flags_match_payload, open_signed, parse_packet, build_packet}
use fwknox.Proto.Packet.Build.{
  Built, build_packet-Built, Built-bounds, flags_of, header_bytes, length-ciphertext,
  derive_flags-lt,
}

module _ {c : Crypto} (sound : IsSound c) where
  aead_open-seal :
      (k n a p : Bytes) {t : Bytes} → aead_seal c k n a p ≡ ok t → aead_open c k n a t ≡ ok p
  unfolding aead_seal aead_open
  aead_open-seal k n a p {t} h =
      let (_, g, s) = >>=-eq-ok (fail_if (not (nat_beq (length k) key_len)) _) _ h in
      let sealed = ok_or-eq-ok _ _ s in
      ground (
        arith,
        fail_if-eq-ok _ _ g,
        sound.open-seal k n a p sealed,
        sound.length-seal k n a p sealed,
      )

  payload_decode-encode :
      (p : SpaPayload) {b : Bytes}
      → validate_structure p ≡ ok tt
      → Payload.encode c p ≡ ok b
      → Payload.decode c b ≡ ok p
  unfolding Payload.encode Payload.decode
  payload_decode-encode p {b} valid h = ground (arith, sound.from-to p {b = b})

  hmac_check-hmac : (k m : Bytes) → hmac_check c k m (c.hmac k m) ≡ ok tt
  unfolding hmac_check
  hmac_check-hmac k m = ground (arith, sound.length-hmac k m, sound.verify-hmac k m)

  module _ {payload : SpaPayload} {master_key wire : Bytes} where
    open_signed-Built :
        (b : Built c payload master_key wire)
        → validate_structure payload ≡ ok tt
        → open_signed c b.keys (header_bytes payload b.plaintext ++ (b.nonce ++ b.ciphertext))
          ≡ ok payload
    unfolding open_signed check_flags_match_payload Header.encode Header.new
    open_signed-Built b valid =
        let flags = flags_of payload in
        let header = Header.new flags (length b.plaintext + tag_len) in
        let v : IsHeader header = record {
          version = refl;
          flags = derive_flags-lt payload.message (is_some payload.client_timeout);
          payload_len = omega (arith, b.fits);
        } in
        let (ct, n) = length-ciphertext sound b in
        let read : Header.decode (header_bytes payload b.plaintext) ≡ ok header =
          decode-encode header [] v in
        let opened = aead_open-seal _ _ _ _ b.sealed in
        let decoded = payload_decode-encode payload valid b.encoded in
        rw (
          read,
          take-append nonce_len b.nonce b.ciphertext n,
          drop-append nonce_len b.nonce b.ciphertext n,
          (nat_beq_iff _ _).1 ct,
          opened,
          decoded,
          (nat_beq_iff flags flags).1 refl,
        )

  -- With sound ciphers and codec, what `build_packet` has built for a payload whose username the
  -- receiver admits, `parse_packet` under the same key gives back.
  pub parse_packet-build_packet :
      (payload : SpaPayload) (master_key : Bytes) {wire : Bytes}
      → validate_structure payload ≡ ok tt
      → build_packet c payload master_key ≡ ok wire
      → parse_packet c wire master_key ≡ ok payload
  unfolding parse_packet
  parse_packet-build_packet payload master_key {wire} valid h =
      let b = build_packet-Built c payload master_key h in
      let signed = header_bytes payload b.plaintext ++ (b.nonce ++ b.ciphertext) in
      let tag = c.hmac b.keys.hmac signed in
      let (_, long, short) = Built-bounds sound b in
      let cut : length signed ≡ length wire - hmac_len = omega (
        arith,
        ap length b.layout,
        length-append signed tag,
        sound.length-hmac b.keys.hmac signed,
      ) in
      let front : take (length wire - hmac_len) wire ≡ signed =
        ap (take (length wire - hmac_len)) b.layout
        ∙ take-append (length wire - hmac_len) signed tag cut in
      let back : drop (length wire - hmac_len) wire ≡ tag =
        ap (drop (length wire - hmac_len)) b.layout
        ∙ drop-append (length wire - hmac_len) signed tag cut in
      rw
        (
          (nat_beq_iff _ _).1 b.key_length,
          ltb_of_le _ _ long,
          ltb_of_le _ _ short,
          b.derived,
          front,
          back,
          hmac_check-hmac b.keys.hmac signed,
        )
        (open_signed-Built b valid)
