-- ===== src/Workers/Sample.antt =====
-- Codecs for the messages of a few packets.
use fwknox.Base.{
  zero, suc, ◌≡◌, refl, subst, Bool, true, false, ◌&&◌, String, ◌∷◌, ◌++◌, arith, length, take,
  drop, take-append, drop-append, Result, ok, err, ok-injective, if◌then◌else◌, ◌==◌, string_eq,
  nat_eq, list_eq, Bool-cases, inl, inr,
}
use fwknox.Base.Text.{is_empty}
use fwknox.Proto.Types.{Bytes, IpAddr, v4, v6, SpaPayload}
use fwknox.Proto.Sample.{alice, is_alice, is_alice-eq}
use fwknox.Daemon.Privsep.{CaptureMsg, CryptoMsg, valid_request, rejected_request, no_match_msg}
use fwknox.Workers.Ipc.{Codec, IsCodec}

abbrev encode_capture : IpAddr → Bytes → Bytes
encode_capture (v4 a) datagram = 0 ∷ length a ∷ (a ++ datagram)
encode_capture (v6 a) datagram = 1 ∷ length a ∷ (a ++ datagram)

abbrev decode_capture : Bytes → Result String CaptureMsg
decode_capture (zero ∷ n ∷ b) = ok (record { source_ip = v4 (take n b); datagram = drop n b })
decode_capture (suc x ∷ n ∷ b) = ok (record { source_ip = v6 (take n b); datagram = drop n b })
decode_capture _ = err "no message"

abbrev pub capture_codec : Codec CaptureMsg
capture_codec = record {
  to_vec = λ m. ok (encode_capture m.source_ip m.datagram);
  from_slice = decode_capture;
}

decode-encode :
    (ip : IpAddr) (d : Bytes)
    → decode_capture (encode_capture ip d) ≡ ok (record { source_ip = ip; datagram = d })
decode-encode (v4 a) d = rw (take-append (length a) a d refl, drop-append (length a) a d refl) refl
decode-encode (v6 a) d = rw (take-append (length a) a d refl, drop-append (length a) a d refl) refl

encode-full : (ip : IpAddr) (d : Bytes) → is_empty (encode_capture ip d) ≡ false
encode-full (v4 a) d = refl
encode-full (v6 a) d = refl

pub capture_codec-IsCodec : IsCodec capture_codec
capture_codec-IsCodec = record {
  from-to = λ m {b} e.
      subst (λ x. decode_capture x ≡ ok m) (ok-injective e) (decode-encode m.source_ip m.datagram);
  full = λ m {b} e.
      subst (λ x. is_empty x ≡ false) (ok-injective e) (encode-full m.source_ip m.datagram);
}

abbrev encode_crypto : CryptoMsg → Result String Bytes
encode_crypto (valid_request name (v4 a) p) =
    if (name == "home") && is_alice p then ok (1 ∷ a) else err "unknown payload"
encode_crypto (valid_request name (v6 a) p) = err "no IPv6"
encode_crypto (rejected_request ip reason) = err "no reason"
encode_crypto (no_match_msg (v4 a)) = ok (0 ∷ a)
encode_crypto (no_match_msg (v6 a)) = err "no IPv6"

abbrev decode_crypto : Bytes → Result String CryptoMsg
decode_crypto (zero ∷ a) = ok (no_match_msg (v4 a))
decode_crypto (suc x ∷ a) = ok (valid_request "home" (v4 a) alice)
decode_crypto _ = err "no message"

abbrev pub crypto_codec : Codec CryptoMsg
crypto_codec = record { to_vec = encode_crypto; from_slice = decode_crypto }

chosen :
    (why : String) {t : Bool} {x y : Bytes}
    → t ≡ true
    → (if t then ok x else err why) ≡ ok y
    → ◌≡◌ {A = Result String Bytes} (ok x) (ok y)
chosen why e h = rw⁻¹ h (rw e refl)

known :
    (name : String) (a : Bytes) (p : SpaPayload) {b : Bytes}
    → encode_crypto (valid_request name (v4 a) p) ≡ ok b
    → (name ≡ "home") × (p ≡ alice) × ((1 ∷ a) ≡ b)
known name a p h = elim (Bool-cases ((name == "home") && is_alice p)) [
  | inl fits ↦ (
    (string_eq.decides name "home").0 (ground arith),
    is_alice-eq p (ground arith),
    ok-injective (chosen "unknown payload" fits h),
  )
  | inr unfit ↦ absurd (ground arith)
]

decode-encode_crypto :
    (m : CryptoMsg) {b : Bytes}
    → encode_crypto m ≡ ok b
    → (decode_crypto b ≡ ok m) × (is_empty b ≡ false)
decode-encode_crypto (valid_request name (v4 a) p) h =
    let (n, q, e) = known name a p h in
    rw (n, q)
      (subst
        (λ b. (decode_crypto b ≡ ok (valid_request "home" (v4 a) alice)) × (is_empty b ≡ false)) e
        (refl, refl))
decode-encode_crypto (valid_request name (v6 a) p) h = absurd (cc)
decode-encode_crypto (rejected_request ip reason) h = absurd (cc)
decode-encode_crypto (no_match_msg (v4 a)) h =
    subst (λ b. (decode_crypto b ≡ ok (no_match_msg (v4 a))) × (is_empty b ≡ false))
      (ok-injective h) (refl, refl)
decode-encode_crypto (no_match_msg (v6 a)) h = absurd (cc)

pub crypto_codec-IsCodec : IsCodec crypto_codec
crypto_codec-IsCodec = record {
  from-to = λ m {b} e. (decode-encode_crypto m e).0;
  full = λ m {b} e. (decode-encode_crypto m e).1;
}
