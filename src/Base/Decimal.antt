-- ===== src/Base/Decimal.antt =====
-- `Display` of the integers, as the format strings of the daemon and the firewall use it.
use Prim.Native.Nat.{ℕ, zero, suc, ◌/◌, ◌%◌}
use Prim.Native.String.{String, ◌++◌ as append}
use mathlib.Core.List.{[], ◌∷◌}
use fwknox.Base.Tests.{ltb, if◌then◌else◌}
use fwknox.Base.Lists.{get_or}
use fwknox.Base.Int.{ℤ, pos, negsuc}

abbrev digit : ℕ → String
digit n = get_or ("0" ∷ "1" ∷ "2" ∷ "3" ∷ "4" ∷ "5" ∷ "6" ∷ "7" ∷ "8" ∷ "9" ∷ []) n ""

-- At most `fuel` digits.
unfoldable pub decimal_go : (fuel n : ℕ) → String
decimal_go zero n = ""
decimal_go (suc fuel) n =
    let more = decimal_go fuel (n / 10) in
    if ltb n 10 then digit n else append more (digit (n % 10))

-- A `u64` has at most 20 digits.
unfoldable pub decimal : ℕ → String
decimal n = decimal_go 20 n

unfoldable pub decimal_ℤ : ℤ → String
decimal_ℤ (pos n) = decimal n
decimal_ℤ (negsuc n) = append "-" (decimal (suc n))
