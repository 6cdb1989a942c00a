-- ===== src/RateLimit/Key.antt =====
-- crates/fwknox-ratelimit/src/key.rs: the key of a source, an IPv6 address by its prefix.
use Prim.Native.Nat.{bit_and}
use fwknox.Base.{
  ℕ, zero, suc, ◌≢◌, Bool-cases, inl, inr, ap, sym, ◌∙◌, take-append, length-take, ◌-◌, ◌*◌, ◌/◌,
  ◌%◌, ◌^◌, ◌≤◌, ◌≡◌, ◌↔◌, refl, Bool, true, false, ◌&&◌, [], ◌∷◌, ◌++◌, arith, ltb, length, take,
  replicate, get_or, if◌then◌else◌, PartialEq, nat_eq, list_beq, list_beq_iff,
}
use fwknox.Proto.Types.{Bytes, IpAddr, v4, v6}

pub data Discriminator : Type 0 where
  of_v4 of_v6 : Discriminator

pub record SourceKey : Type 0 where
  pub discriminator : Discriminator
  pub bytes : Bytes

abbrev pub same_kind : Discriminator → Discriminator → Bool
same_kind of_v4 of_v4 = true
same_kind of_v4 of_v6 = false
same_kind of_v6 of_v4 = false
same_kind of_v6 of_v6 = true

same_kind_iff : (a b : Discriminator) → (same_kind a b ≡ true) ↔ (a ≡ b)
same_kind_iff of_v4 of_v4 = ground arith
same_kind_iff of_v4 of_v6 = ground arith
same_kind_iff of_v6 of_v4 = ground arith
same_kind_iff of_v6 of_v6 = ground arith

abbrev pub same_key : SourceKey → SourceKey → Bool
same_key a b = same_kind a.discriminator b.discriminator && list_beq a.bytes b.bytes

pub same_key_iff : (a b : SourceKey) → (same_key a b ≡ true) ↔ (a ≡ b)
same_key_iff a b =
    ground (arith, same_kind_iff a.discriminator b.discriminator, list_beq_iff a.bytes b.bytes)

instance abbrev pub key_eq : PartialEq SourceKey
key_eq = record { test = same_key; decides = same_key_iff }

-- The four octets, and zeros.
unfoldable pub from_ipv4 : Bytes → SourceKey
from_ipv4 octets = record { discriminator = of_v4; bytes = octets ++ replicate 12 0 }

-- `prefix_len.clamp(1, 128)`
abbrev pub clamp_prefix : ℕ → ℕ
clamp_prefix n = if ltb n 1 then 1 else if ltb 128 n then 128 else n

-- `0xFFu8 << (8 - n)` for `n` in 1..8.
abbrev pub mask : ℕ → ℕ
mask n = 255 * 2 ^ (8 - n) % 256

-- The bytes with every bit past the prefix cleared.
unfoldable pub mask_octets : ℕ → Bytes → Bytes
mask_octets prefix_len octets =
    let full_bytes = prefix_len / 8 in
    let remaining_bits = prefix_len % 8 in
    if ltb full_bytes 16
    then if ltb 0 remaining_bits
      then take full_bytes octets
        ++ (bit_and (get_or octets full_bytes 0) (mask remaining_bits)
            ∷ replicate (length octets - full_bytes - 1) 0)
      else take full_bytes octets ++ replicate (length octets - full_bytes) 0
    else octets

unfoldable pub from_ipv6_masked : Bytes → ℕ → SourceKey
from_ipv6_masked octets prefix_len = record {
  discriminator = of_v6;
  bytes = mask_octets (clamp_prefix prefix_len) octets;
}

unfoldable pub from_ip : IpAddr → ℕ → SourceKey
from_ip (v4 octets) prefix_len = from_ipv4 octets
from_ip (v6 octets) prefix_len = from_ipv6_masked octets prefix_len

take_all : (n : ℕ) (xs : Bytes) → length xs ≡ n → take n xs ++ [] ≡ xs
take_all zero [] h = refl
take_all zero (x ∷ xs) h = absurd (omega arith)
take_all (suc n) [] h = absurd (omega arith)
take_all (suc n) (x ∷ xs) h = ap (◌∷◌ x) (take_all n xs (omega arith))

mask_octets-whole :
    (n : ℕ) (octets : Bytes)
    → n ≤ 16
    → length octets ≡ 16
    → mask_octets (n * 8) octets ≡ take n octets ++ replicate (16 - n) 0
unfolding mask_octets
mask_octets-whole n octets le size =
    let q : n * 8 / 8 ≡ n = omega arith in
    let r : n * 8 % 8 ≡ 0 = omega arith in
    elim (Bool-cases (ltb n 16)) [
      | inl short ↦ rw (mask_octets, q, r, short, size) refl
      | inr whole ↦
          let n16 : n ≡ 16 = ground arith in
          rw (mask_octets, q, r, whole, n16) (sym (take_all 16 octets size))
    ]

from_ip_whole :
    (n : ℕ) (octets : Bytes)
    → 1 ≤ n
    → n ≤ 16
    → length octets ≡ 16
    → from_ip (v6 octets) (n * 8)
      ≡ record { discriminator = of_v6; bytes = take n octets ++ replicate (16 - n) 0 }
unfolding from_ip from_ipv6_masked
from_ip_whole n octets pos le size =
    let clamped : clamp_prefix (n * 8) ≡ n * 8 = ground arith in
    rw (from_ipv6_masked, clamped, mask_octets-whole n octets le size) refl

-- Under a prefix of one to sixteen whole bytes, as the default of 64 bits, two IPv6 addresses of
-- sixteen bytes have one key exactly when they agree in the prefix, and no IPv6 address shares one
-- with an IPv4 address.
pub from_ip-prefix :
    (n : ℕ) (a b c : Bytes)
    → 1 ≤ n
    → n ≤ 16
    → length a ≡ 16
    → length b ≡ 16
    → ((from_ip (v6 a) (n * 8) ≡ from_ip (v6 b) (n * 8)) ↔ (take n a ≡ take n b))
      × (from_ip (v6 a) (n * 8) ≢ from_ip (v4 c) (n * 8))
unfolding from_ip from_ipv4 from_ipv6_masked
from_ip-prefix n a b c pos le la lb =
    let wa = from_ip_whole n a pos le la in
    let wb = from_ip_whole n b pos le lb in
    let zeros : Bytes = replicate (16 - n) 0 in
    let size = λ (x : Bytes) (h : length x ≡ 16).
      take-append n (take n x) zeros (omega (arith, length-take n x)) in
    (
      (
        λ e. sym (size a la) ∙ ap (take n) (ap (λ k. k.bytes) (sym wa ∙ e ∙ wb)) ∙ size b lb,
        λ e. wa ∙ ap (λ x. record { discriminator = of_v6; bytes = x ++ zeros }) e ∙ sym wb,
      ),
      λ e. absurd (let d = ap (λ k. k.discriminator) (sym wa ∙ e) in cc),
    )
