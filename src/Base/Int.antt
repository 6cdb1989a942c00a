-- ===== src/Base/Int.antt =====
-- Signed integers over the native numbers, and the wrap-around of `i64`.
use fwknox.Base.Tests.{ltb, leb, if◌then◌else◌}
use Prim.Native.Nat.{ℕ, suc, ◌+◌, ◌-◌, ◌%◌, ◌≤◌, ◌<◌}
use mathlib.Core.Path.{◌≡◌}
use mathlib.Core.Bool.{Bool}
use native.Mathlib.Omega.{arith}

-- `negsuc n` is -(n + 1).
pub data ℤ : Type 0 where
  pos : ℕ → ℤ
  negsuc : ℕ → ℤ

abbrev pub pos_part : ℤ → ℕ
pos_part (pos n) = n
pos_part (negsuc n) = 0

abbrev pub neg_part : ℤ → ℕ
neg_part (pos n) = 0
neg_part (negsuc n) = suc n

abbrev pub sub_ℕ : ℕ → ℕ → ℤ
sub_ℕ a b = if leb b a then pos (a - b) else negsuc (b - a - 1)

infixl 65 ◌-ℤ◌
infix 50 ◌≤ℤ◌
unfoldable pub ◌-ℤ◌ : ℤ → ℤ → ℤ
a -ℤ b = sub_ℕ (pos_part a + neg_part b) (neg_part a + pos_part b)

abbrev pub ◌≤ℤ◌ : ℤ → ℤ → Type 0
a ≤ℤ b = pos_part a + neg_part b ≤ pos_part b + neg_part a

abbrev pub ltb_ℤ : ℤ → ℤ → Bool
ltb_ℤ a b = ltb (pos_part a + neg_part b) (pos_part b + neg_part a)

abbrev pub i64_half : ℕ
i64_half = 0x8000_0000_0000_0000

abbrev pub i64_mod : ℕ
i64_mod = 0x1_0000_0000_0000_0000

-- The values of an `i64`.
abbrev pub IsI64 : ℤ → Type 0
IsI64 a = (pos_part a < i64_half) × (neg_part a ≤ i64_half)

-- The bit pattern `u < 2^64` read as two's complement.
abbrev pub of_bits : ℕ → ℤ
of_bits u = if ltb u i64_half then pos u else negsuc (i64_mod - 1 - u)

-- The bit pattern of `a - b` for two `i64` values: the sum of parts, below 2^65, modulo 2^64.
abbrev pub sub_bits : ℤ → ℤ → ℕ
sub_bits a b = (pos_part a + neg_part b + i64_mod + i64_mod - (neg_part a + pos_part b)) % i64_mod

-- `a - b` on `i64`, with wrap-around.
unfoldable pub sub_i64 : ℤ → ℤ → ℤ
sub_i64 a b = of_bits (sub_bits a b)

pub -ℤ_parts :
    (a b : ℤ)
    → pos_part (a -ℤ b) + neg_part a + pos_part b ≡ neg_part (a -ℤ b) + pos_part a + neg_part b
unfolding ◌-ℤ◌
-ℤ_parts a b = ground arith
