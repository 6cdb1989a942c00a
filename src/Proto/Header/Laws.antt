-- ===== src/Proto/Header/Laws.antt =====
-- `decode` and `encode` of a header are inverse to one another, both ways.
use Prim.Native.Nat.{bit_and}
use fwknox.Base.{
  ℕ, ◌≤◌, ◌<◌, ◌≡◌, refl, Bool, true, [], ◌∷◌, ◌++◌, arith, ltb, nat_beq, all, take, ok, err,
  if◌then◌else◌,
}
use fwknox.Base.Table.{every_below, every_below_at}
use fwknox.Proto.Types.{Bytes, reserved_flag}
use fwknox.Proto.Header.Wire.{
  Header, encode, decode, flags_from_raw, proto_version, header_len, all_defined, not_u8,
}

abbrev reserved_agrees : ℕ → Bool
reserved_agrees b =
    if ltb b 16
    then nat_beq (bit_and b (not_u8 all_defined)) 0
    else ltb 0 (bit_and b (not_u8 all_defined))

reserved_table : every_below 256 reserved_agrees ≡ true
unfolding every_below
reserved_table = refl

-- A byte passes `from_raw` if only the four defined bits are set.
pub flags_from_raw-small : (b : ℕ) → b < 16 → flags_from_raw b ≡ ok b
unfolding flags_from_raw
flags_from_raw-small b h = ground (arith, every_below_at 256 reserved_agrees b reserved_table)

pub flags_from_raw-large :
    (b : ℕ)
    → b < 256
    → 16 ≤ b
    → flags_from_raw b ≡ err (reserved_flag (bit_and b (not_u8 all_defined)))
unfolding flags_from_raw
flags_from_raw-large b h large = ground (arith, every_below_at 256 reserved_agrees b reserved_table)

-- The headers that a peer of this protocol version can send.
pub record IsHeader (h : Header) : Type 0 where
  pub version : h.version ≡ proto_version
  pub flags : h.flags < 16
  pub payload_len : h.payload_len < 65536

abbrev pub are_bytes : Bytes → Bool
are_bytes = all (λ b. ltb b 256)

-- Decoding what `encode` wrote, with anything after it, gives back the header.
pub decode-encode : (h : Header) (rest : Bytes) → IsHeader h → decode (encode h ++ rest) ≡ ok h
unfolding decode encode
decode-encode h rest v = ground (arith, flags_from_raw-small h.flags v.flags)

-- A buffer of bytes decodes only to a header of this version with no reserved flag bit, and its
-- first four bytes are then exactly what `encode` writes for that header.
pub decode-eq-ok :
    (bytes : Bytes) {h : Header}
    → are_bytes bytes ≡ true
    → decode bytes ≡ ok h
    → IsHeader h × (take header_len bytes ≡ encode h)
unfolding decode encode
decode-eq-ok [] b e = absurd (ground arith)
decode-eq-ok (v ∷ []) b e = absurd (ground arith)
decode-eq-ok (v ∷ f ∷ []) b e = absurd (ground arith)
decode-eq-ok (v ∷ f ∷ l ∷ []) b e = absurd (ground arith)
decode-eq-ok (v ∷ f ∷ l ∷ m ∷ r) b e =
    ground (arith, flags_from_raw-small f, flags_from_raw-large f)
