-- ===== src/Proto/Header/Wire.antt =====
-- The flag bits and the header record of header.rs, with `encode` and `decode`.
use Prim.Native.Nat.{bit_and, bit_or}
use fwknox.Base.{
  ℕ, ◌*◌, ◌+◌, ◌-◌, ◌/◌, ◌%◌, Bool, not, [], ◌∷◌, nat_beq, ltb, length, get_or, Result, ok, err,
  ◌>>=◌, ◌>>◌, fail_if, if◌then◌else◌,
}
use fwknox.Proto.Types.{Bytes, ProtoError, packet_too_short, unsupported_version, reserved_flag}

abbrev pub proto_version : ℕ
proto_version = 0x01

abbrev pub header_len : ℕ
header_len = 4

-- `Flags`, by its raw byte.
abbrev pub Flags : Type 0
Flags = ℕ

abbrev pub flag_nat : ℕ
flag_nat = 0b0000_0001

abbrev pub flag_client_timeout : ℕ
flag_client_timeout = 0b0000_0010

abbrev pub flag_command : ℕ
flag_command = 0b0000_0100

abbrev pub flag_asymmetric : ℕ
flag_asymmetric = 0b0000_1000

abbrev pub all_defined : ℕ
all_defined = bit_or (bit_or (bit_or flag_nat flag_client_timeout) flag_command) flag_asymmetric

-- `!mask` on a `u8`.
abbrev pub not_u8 : ℕ → ℕ
not_u8 mask = 255 - mask

unfoldable pub flags_from_raw : ℕ → Result ProtoError Flags
flags_from_raw byte =
    let reserved = bit_and byte (not_u8 all_defined) in
    if nat_beq reserved 0 then ok byte else err (reserved_flag reserved)

unfoldable pub flags_contains : Flags → ℕ → Bool
flags_contains flags mask = not (nat_beq (bit_and flags mask) 0)

unfoldable pub flags_set : Flags → ℕ → Flags
flags_set flags mask = bit_or flags mask

pub record Header : Type 0 where
  pub version : ℕ
  pub flags : Flags
  pub payload_len : ℕ

unfoldable pub new : Flags → ℕ → Header
new flags payload_len = record { version = proto_version; flags = flags; payload_len = payload_len }

unfoldable pub encode : Header → Bytes
encode h = h.version ∷ h.flags ∷ (h.payload_len / 256) ∷ (h.payload_len % 256) ∷ []

unfoldable pub decode : Bytes → Result ProtoError Header
decode bytes = do
  fail_if (ltb (length bytes) header_len) (packet_too_short (length bytes) header_len)
  fail_if (not (nat_beq (get_or bytes 0 0) proto_version)) (unsupported_version (get_or bytes 0 0))
  flags ← flags_from_raw (get_or bytes 1 0)
  ok (record {
    version = get_or bytes 0 0;
    flags = flags;
    payload_len = get_or bytes 2 0 * 256 + get_or bytes 3 0;
  })
