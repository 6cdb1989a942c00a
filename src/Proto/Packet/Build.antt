-- ===== src/Proto/Packet/Build.antt =====
-- What a packet that `build_packet` returns is made of.
use fwknox.Base.{
  ◌+◌, ◌≡◌, ◌≤◌, ◌<◌, ap, sym, ◌∙◌, Bool, true, false, not, some, ◌++◌, arith, nat_beq, ltb, length,
  ok, bind_then, guard_then, ok-injective, >>=-eq-ok, ok_or-eq-ok, fail_if, is_some, length-append,
}
use fwknox.Proto.Types.{Bytes, SpaMessage, access, nat, local_nat, command, SpaPayload}
use fwknox.Proto.Header
use fwknox.Proto.Header.{header_len}
use fwknox.Proto.Crypto.{
  Crypto, IsSound, key_len, nonce_len, tag_len, DerivedKeys, derive, generate_nonce, aead_seal,
}
use fwknox.Proto.Payload
use fwknox.Proto.Packet.Wire.{
  master_key_len, min_packet_len, max_packet_len, u16_max, derive_flags, seal_signed, build_packet,
}

abbrev pub flags_of : SpaPayload → Header.Flags
flags_of p = derive_flags p.message (is_some p.client_timeout)

-- The header bytes over a plaintext.
abbrev pub header_bytes : SpaPayload → Bytes → Bytes
header_bytes p plaintext = Header.encode (Header.new (flags_of p) (length plaintext + tag_len))

pub record Built (c : Crypto) (payload : SpaPayload) (master_key wire : Bytes) : Type 0 where
  pub plaintext : Bytes
  pub nonce : Bytes
  pub ciphertext : Bytes
  pub keys : DerivedKeys
  pub key_length : length master_key ≡ master_key_len
  pub encoded : Payload.encode c payload ≡ ok plaintext
  pub drawn : c.fill nonce_len ≡ some nonce
  pub fits : length plaintext + tag_len ≤ u16_max
  pub derived : derive c master_key ≡ ok keys
  pub sealed : aead_seal c keys.enc nonce (header_bytes payload plaintext) plaintext ≡ ok ciphertext
  pub layout :
      let signed = header_bytes payload plaintext ++ (nonce ++ ciphertext) in
      wire ≡ signed ++ c.hmac keys.hmac signed
  pub short : length wire ≤ max_packet_len

module _ (c : Crypto) (payload : SpaPayload) (master_key : Bytes) {wire : Bytes} where
  pub build_packet-Built :
      build_packet c payload master_key ≡ ok wire → Built c payload master_key wire
  unfolding build_packet seal_signed generate_nonce
  build_packet-Built h =
      guard_then (not (nat_beq (length master_key) master_key_len)) _ _ h λ g1 h1.
        bind_then (Payload.encode c payload) _ h1 λ plaintext encoded h2.
          bind_then (generate_nonce c) _ h2 λ nonce drawn h3.
            guard_then (ltb u16_max (length plaintext + tag_len)) _ _ h3 λ g2 h4.
              bind_then (derive c master_key) _ h4 λ keys derived h5.
                let head = header_bytes payload plaintext in
                bind_then (seal_signed c keys head nonce plaintext) _ h5 λ packet whole h6.
                  bind_then (aead_seal c keys.enc nonce head plaintext) _ whole
                    λ ciphertext sealed h7.
                      guard_then (ltb max_packet_len (length packet)) _ _ h6 λ g3 h8. record {
                        plaintext = plaintext;
                        nonce = nonce;
                        ciphertext = ciphertext;
                        keys = keys;
                        key_length = ground arith;
                        encoded = encoded;
                        drawn = ok_or-eq-ok _ _ drawn;
                        fits = ground arith;
                        derived = derived;
                        sealed = sealed;
                        layout = sym (ok-injective h8) ∙ sym (ok-injective h7);
                        short = rw (← ok-injective h8) (ground arith);
                      }

-- Every flag byte that the client sets is one of the sixteen that `from_raw` admits.
pub derive_flags-lt : (m : SpaMessage) (timeout : Bool) → derive_flags m timeout < 16
unfolding derive_flags
derive_flags-lt (access source_ip ports) true = omega arith
derive_flags-lt (access source_ip ports) false = omega arith
derive_flags-lt (nat source_ip ports nat_dest) true = omega arith
derive_flags-lt (nat source_ip ports nat_dest) false = omega arith
derive_flags-lt (local_nat source_ip ports nat_dest) true = omega arith
derive_flags-lt (local_nat source_ip ports nat_dest) false = omega arith
derive_flags-lt (command source_ip command_line) true = omega arith
derive_flags-lt (command source_ip command_line) false = omega arith

pub length-header_bytes :
    (p : SpaPayload) (plaintext : Bytes) → length (header_bytes p plaintext) ≡ 4
unfolding Header.encode
length-header_bytes p plaintext = omega arith

module _ {c : Crypto} {payload : SpaPayload} {master_key wire : Bytes} (sound : IsSound c) where
  pub length-ciphertext :
      (b : Built c payload master_key wire)
      → (length b.ciphertext ≡ length b.plaintext + tag_len) × (length b.nonce ≡ nonce_len)
  unfolding aead_seal
  length-ciphertext b =
      let (_, g, h) =
        >>=-eq-ok (fail_if (not (nat_beq (length b.keys.enc) key_len)) _) _ b.sealed in
      let sealed = ok_or-eq-ok _ _ h in
      (sound.length-seal _ _ _ _ sealed, sound.length-fill _ b.drawn)

  pub Built-bounds :
      (b : Built c payload master_key wire)
      → (length wire ≡ min_packet_len + length b.plaintext)
        × (min_packet_len ≤ length wire)
        × (length wire ≤ max_packet_len)
  Built-bounds b =
      let signed = header_bytes payload b.plaintext ++ (b.nonce ++ b.ciphertext) in
      let (ct, n) = length-ciphertext b in
      let size : length wire ≡ min_packet_len + length b.plaintext = omega (
        arith,
        ap length b.layout,
        length-append signed (c.hmac b.keys.hmac signed),
        length-append (header_bytes payload b.plaintext) (b.nonce ++ b.ciphertext),
        length-append b.nonce b.ciphertext,
        length-header_bytes payload b.plaintext,
        sound.length-hmac b.keys.hmac signed,
        ct,
        n,
      ) in
      (size, omega arith, b.short)

-- With sound ciphers, a packet that `build_packet` returns is as long as the encoded payload and the
-- four fixed parts, and no shorter and no longer than the two limits that `parse_packet` checks.
pub build_packet_bounds :
    (c : Crypto) (payload : SpaPayload) (master_key : Bytes) {wire : Bytes}
    → IsSound c
    → build_packet c payload master_key ≡ ok wire
    → (plaintext : Bytes) × (Payload.encode c payload ≡ ok plaintext)
      × (length wire ≡ min_packet_len + length plaintext)
      × (min_packet_len ≤ length wire)
      × (length wire ≤ max_packet_len)
build_packet_bounds c payload master_key sound h =
    let b = build_packet-Built c payload master_key h in
    let (size, long, short) = Built-bounds sound b in (b.plaintext, b.encoded, size, long, short)
