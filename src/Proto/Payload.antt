-- ===== src/Proto/Payload.antt =====
-- crates/fwknox-proto/src/payload.rs: the payload as MessagePack, and its structural validation.
use Prim.Native.String.{len}
use fwknox.Base.{
  ℕ, Bool, ◌&&◌, ◌||◌, String, not, nat_beq, leb, ltb, all, length, Result, ok, err, ◌>>=◌, ◌>>◌,
  fail_if,
}
use fwknox.Proto.Types.{
  Bytes, SpaPayload, ProtoError, payload_decode, payload_encode, invalid_field,
}
use fwknox.Base.Text.{codes}
use fwknox.Proto.Crypto.{Crypto}

abbrev pub max_username_len : ℕ
max_username_len = 64

abbrev pub max_encoded_len : ℕ
max_encoded_len = 1024

-- `map_err`, with the text of the error.
abbrev pub or_error : {A : Type 0} → Result String A → (String → ProtoError) → Result ProtoError A
or_error (ok a) f = ok a
or_error (err e) f = err (f e)

-- `c.is_ascii_graphic() || c == ' '`
abbrev pub is_printable : ℕ → Bool
is_printable c = (leb 0x21 c && leb c 0x7e) || nat_beq c 0x20

unfoldable pub validate_structure : SpaPayload → Result ProtoError (Unit {0})
validate_structure p = do
  fail_if (ltb max_username_len (len p.username)) (invalid_field "username too long")
  fail_if (not (all is_printable (codes p.username)))
      (invalid_field "username contains control bytes")

module _ (c : Crypto) where
  unfoldable pub encode : SpaPayload → Result ProtoError Bytes
  encode p = do
    bytes ← or_error (c.to_vec p) payload_encode
    fail_if (ltb max_encoded_len (length bytes)) (invalid_field "payload too large")
    ok bytes

  unfoldable pub decode : Bytes → Result ProtoError SpaPayload
  decode bytes = do
    payload ← or_error (c.from_slice bytes) payload_decode
    validate_structure payload
    ok payload
