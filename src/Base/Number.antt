-- ===== src/Base/Number.antt =====
-- `Display` and `FromStr` of the unsigned integers.
use Prim.Native.Nat.{ℕ, zero, suc, ◌+◌, ◌-◌, ◌*◌, ◌/◌, ◌%◌, ◌^◌, ◌<◌, ◌≤◌}
use fwknox.Base.Tests.{ltb, leb, nat_beq, if◌then◌else◌}
use fwknox.Base.Lists.{all}
use fwknox.Base.Text.{Text, is_empty, is_empty-append, is_space, without, lacks}
use mathlib.Core.Path.{◌≡◌, refl}
use mathlib.Core.Bool.{Bool, true, false, not, ◌&&◌}
use mathlib.Core.Option.{Option, none, some}
use mathlib.Core.List.{[], ◌∷◌, ◌++◌}
use native.Mathlib.Omega.{arith}

-- At most `fuel` digits.
unfoldable pub decimal_digits : (fuel n : ℕ) → Text
decimal_digits zero n = []
decimal_digits (suc fuel) n =
    let more = decimal_digits fuel (n / 10) in
    if ltb n 10 then (48 + n) ∷ [] else more ++ ((48 + n % 10) ∷ [])

-- A `u64` has at most 20 digits.
unfoldable pub decimal_text : ℕ → Text
decimal_text n = decimal_digits 20 n

unfoldable pub is_digit : ℕ → Bool
is_digit c = leb 48 c && leb c 57

unfoldable pub parse_digits : ℕ → Text → Option ℕ
parse_digits acc [] = some acc
parse_digits acc (c ∷ s) =
    let rest = parse_digits (acc * 10 + (c - 48)) s in if is_digit c then rest else none

-- A sign may stand in front of at least one digit.
unfoldable pub parse_signed : Text → Option ℕ
parse_signed [] = none
parse_signed (c ∷ s) =
    if nat_beq c 43 && not (is_empty s) then parse_digits 0 s else parse_digits 0 (c ∷ s)

unfoldable pub at_most : ℕ → Option ℕ → Option ℕ
at_most max none = none
at_most max (some n) = if leb n max then some n else none

-- `from_str` of the unsigned type whose greatest value is `max`.
unfoldable pub parse_uint : (max : ℕ) → Text → Option ℕ
parse_uint max s = at_most max (parse_signed s)

unfoldable pub ten_to : ℕ → ℕ
ten_to zero = 1
ten_to (suc n) = 10 * ten_to n

pub all-append :
    (p : ℕ → Bool) (s t : Text) → all p s ≡ true → all p t ≡ true → all p (s ++ t) ≡ true
all-append p [] t hs ht = ht
all-append p (c ∷ s) t hs ht = ground (arith, all-append p s t)

pub all_of_all :
    (p q : ℕ → Bool) (s : Text)
    → ((c : ℕ) → p c ≡ true → q c ≡ true)
    → all p s ≡ true
    → all q s ≡ true
all_of_all p q [] imp h = refl
all_of_all p q (c ∷ s) imp h = ground (arith, imp c, all_of_all p q s imp)

is_digit_below : (n : ℕ) → n < 10 → is_digit (48 + n) ≡ true
unfolding is_digit
is_digit_below n h = ground arith

all-decimal_digits : (fuel n : ℕ) → all is_digit (decimal_digits fuel n) ≡ true
unfolding decimal_digits
all-decimal_digits zero n = refl
all-decimal_digits (suc fuel) n =
    let more =
      all-append is_digit (decimal_digits fuel (n / 10)) ((48 + n % 10) ∷ [])
        (all-decimal_digits fuel (n / 10)) (ground (arith, is_digit_below (n % 10))) in
    ground (arith, more, is_digit_below n)

parse_digits-append :
    (acc : ℕ) (s : Text) (v n : ℕ)
    → parse_digits acc s ≡ some v
    → n < 10
    → parse_digits acc (s ++ ((48 + n) ∷ [])) ≡ some (v * 10 + n)
unfolding parse_digits
parse_digits-append acc [] v n h small = ground (arith, is_digit_below n)
parse_digits-append acc (c ∷ s) v n h small =
    ground (arith, parse_digits-append (acc * 10 + (c - 48)) s v n)

parse_digits-decimal_digits :
    (fuel n : ℕ) → n < ten_to fuel → parse_digits 0 (decimal_digits fuel n) ≡ some n
unfolding decimal_digits ten_to parse_digits
parse_digits-decimal_digits zero n h = ground arith
parse_digits-decimal_digits (suc fuel) n h = ground (
  arith,
  is_digit_below n,
  parse_digits-append 0 (decimal_digits fuel (n / 10)) (n / 10) (n % 10),
  parse_digits-decimal_digits fuel (n / 10),
)

pub is_empty-decimal_text : (n : ℕ) → is_empty (decimal_text n) ≡ false
unfolding decimal_text decimal_digits
is_empty-decimal_text n =
    ground (arith, is_empty-append (decimal_digits 19 (n / 10)) ((48 + n % 10) ∷ []) refl)

parse_signed_digits :
    (s : Text) → is_empty s ≡ false → all is_digit s ≡ true → parse_signed s ≡ parse_digits 0 s
unfolding parse_signed is_digit
parse_signed_digits [] h hs = absurd (cc)
parse_signed_digits (c ∷ s) h hs = ground arith

-- What `Display` writes of a number reads back as that number, in every type that holds it.
pub parse_uint-decimal_text :
    (max n : ℕ) → n ≤ max → n < 10 ^ 20 → parse_uint max (decimal_text n) ≡ some n
unfolding parse_uint at_most decimal_text ten_to
parse_uint-decimal_text max n le small = ground (
  arith,
  parse_signed_digits (decimal_text n) (is_empty-decimal_text n) (all-decimal_digits 20 n),
  parse_digits-decimal_digits 20 n small,
)

digit_no_mark : (c d : ℕ) → d < 48 → is_digit c ≡ true → nat_beq c d ≡ false
unfolding is_digit
digit_no_mark c d small h = ground arith

digit_no_space : (c : ℕ) → is_digit c ≡ true → is_space c ≡ false
unfolding is_digit is_space
digit_no_space c h = ground arith

-- A test that no digit passes, none of the characters of a number passes.
pub without-decimal_text :
    (p : ℕ → Bool) (n : ℕ)
    → ((c : ℕ) → is_digit c ≡ true → p c ≡ false)
    → without p (decimal_text n) ≡ true
unfolding decimal_text
without-decimal_text p n fails =
    all_of_all is_digit (λ c. not (p c)) (decimal_digits 20 n) (λ c h. rw (fails c h))
      (all-decimal_digits 20 n)

pub lacks-decimal_text : (d n : ℕ) → d < 48 → lacks d (decimal_text n) ≡ true
lacks-decimal_text d n small =
    without-decimal_text (λ c. nat_beq c d) n (λ c. digit_no_mark c d small)

pub no_space-decimal_text : (n : ℕ) → without is_space (decimal_text n) ≡ true
no_space-decimal_text n = without-decimal_text is_space n digit_no_space
