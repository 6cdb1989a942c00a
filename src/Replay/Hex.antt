-- ===== src/Replay/Hex.antt =====
-- The hexadecimal form of a nonce in the cache file: crates/fwknox-replay/src/persist.rs. A text is
-- given by its characters: one that is not ASCII is no hexadecimal digit, whatever its length in bytes.
use Prim.Native.Nat.{bit_or}
use fwknox.Base.{
  ℕ, ◌+◌, ◌-◌, ◌*◌, ◌/◌, ◌%◌, ◌≡◌, refl, Bool, true, false, not, ◌&&◌, ◌||◌, Option, none, some, [],
  ◌∷◌, arith, ltb, leb, nat_beq, all, length, if◌then◌else◌,
}
use fwknox.Base.Table.{every_below, every_below_at}
use fwknox.Proto.Types.{Bytes}
use fwknox.Replay.Cache.{Nonce}

-- Called below 16, where the source's last case is unreachable.
unfoldable pub nibble_to_hex : ℕ → ℕ
nibble_to_hex n = if ltb n 10 then 0x30 + n else 0x61 + n - 10

unfoldable pub encode_nonce_hex : Nonce → Bytes
encode_nonce_hex [] = []
encode_nonce_hex (b ∷ nonce) =
    nibble_to_hex (b / 16) ∷ nibble_to_hex (b % 16) ∷ encode_nonce_hex nonce

-- `hex_to_nibble`: the digits, then the small letters, then the capital ones.
unfoldable pub hex_to_nibble : ℕ → Option ℕ
hex_to_nibble c =
    if leb 0x30 c && leb c 0x39
    then some (c - 0x30)
    else if leb 0x61 c && leb c 0x66
    then some (c - 0x61 + 10)
    else if leb 0x41 c && leb c 0x46
    then some (c - 0x41 + 10)
    else none

-- `char::is_ascii_hexdigit`
unfoldable pub is_hexdigit : ℕ → Bool
is_hexdigit c =
    (leb 0x30 c && leb c 0x39) || (leb 0x61 c && leb c 0x66) || (leb 0x41 c && leb c 0x46)

-- `(hi << 4) | lo` on `u8`.
unfoldable pub join_nibbles : Option ℕ → Option ℕ → Option ℕ
join_nibbles none lo = none
join_nibbles (some hi) none = none
join_nibbles (some hi) (some lo) = some (bit_or (hi * 16 % 256) lo)

abbrev push_byte : Option ℕ → Option Nonce → Option Nonce
push_byte none rest = none
push_byte (some b) none = none
push_byte (some b) (some rest) = some (b ∷ rest)

-- The loop, two digits at a time; the length is even where it is called.
unfoldable pub parse_pairs : Bytes → Option Nonce
parse_pairs [] = some []
parse_pairs (c ∷ []) = none
parse_pairs (hi ∷ lo ∷ rest) =
    push_byte (join_nibbles (hex_to_nibble hi) (hex_to_nibble lo)) (parse_pairs rest)

unfoldable pub parse_nonce_hex : Bytes → Option Nonce
parse_nonce_hex s =
    if not (nat_beq (length s) 32) || not (all is_hexdigit s) then none else parse_pairs s

abbrev digits_of : ℕ → Bool
digits_of b =
    is_hexdigit (nibble_to_hex (b / 16))
    && is_hexdigit (nibble_to_hex (b % 16))
    && (elim (join_nibbles (hex_to_nibble (nibble_to_hex (b / 16)))
        (hex_to_nibble (nibble_to_hex (b % 16)))) [ none ↦ false | some x ↦ nat_beq x b ])

digits_table : every_below 256 digits_of ≡ true
unfolding every_below nibble_to_hex hex_to_nibble is_hexdigit join_nibbles
digits_table = refl

length-encode_nonce_hex : (n : Nonce) → length (encode_nonce_hex n) ≡ length n + length n
unfolding encode_nonce_hex
length-encode_nonce_hex [] = refl
length-encode_nonce_hex (b ∷ n) = omega (arith, length-encode_nonce_hex n)

pub all-encode_nonce_hex :
    (n : Nonce) → all (λ b. ltb b 256) n ≡ true → all is_hexdigit (encode_nonce_hex n) ≡ true
unfolding encode_nonce_hex
all-encode_nonce_hex [] h = refl
all-encode_nonce_hex (b ∷ n) h =
    ground (arith, every_below_at 256 digits_of b digits_table, all-encode_nonce_hex n)

parse_pairs-encode_nonce_hex :
    (n : Nonce) → all (λ b. ltb b 256) n ≡ true → parse_pairs (encode_nonce_hex n) ≡ some n
unfolding encode_nonce_hex parse_pairs
parse_pairs-encode_nonce_hex [] h = refl
parse_pairs-encode_nonce_hex (b ∷ n) h =
    ground (arith, every_below_at 256 digits_of b digits_table, parse_pairs-encode_nonce_hex n)

-- The hexadecimal form of every nonce of sixteen bytes reads back as that nonce.
pub parse_nonce_hex-encode_nonce_hex :
    (n : Nonce)
    → length n ≡ 16
    → all (λ b. ltb b 256) n ≡ true
    → parse_nonce_hex (encode_nonce_hex n) ≡ some n
unfolding parse_nonce_hex
parse_nonce_hex-encode_nonce_hex n size bytes = ground (
  arith,
  length-encode_nonce_hex n,
  all-encode_nonce_hex n bytes,
  parse_pairs-encode_nonce_hex n bytes,
)
