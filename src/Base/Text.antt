-- ===== src/Base/Text.antt =====
-- The standard library's texts as the source uses them: a text is its characters, by code point.
use Prim.Native.Char.{code}
use fwknox.Base.Tests.{leb, nat_beq, if◌then◌else◌}
use fwknox.Base.Lists.{all}
use fwknox.Base.Equality.{nat_eq, list_eq}
use Prim.Native.Nat.{ℕ, ◌+◌}
use Prim.Native.String.{String}
use mathlib.Core.Path.{◌≡◌, refl, ap, ◌∙◌}
use mathlib.Core.Bool.{Bool, true, false, not, ◌&&◌, ◌||◌}
use mathlib.Core.Option.{Option, none, some}
use mathlib.Core.List.{List, [], ◌∷◌, ◌++◌}
use native.Mathlib.Omega.{arith}

abbrev pub Text : Type 0
Text = List ℕ

-- The characters of a literal.
abbrev pub codes : String → Text
codes String.[] = []
codes (String.◌∷◌ c s) = code c ∷ codes s

abbrev pub is_empty {ℓ} : {A : Type ℓ} → List A → Bool
is_empty [] = true
is_empty (x ∷ xs) = false

-- One character in front of the first piece.
abbrev pub glue : ℕ → List Text → List Text
glue c [] = (c ∷ []) ∷ []
glue c (w ∷ ws) = (c ∷ w) ∷ ws

-- `str::split`, at the characters of a test.
unfoldable pub split_where : (ℕ → Bool) → Text → List Text
split_where p [] = [] ∷ []
split_where p (c ∷ s) = let rest = split_where p s in if p c then [] ∷ rest else glue c rest

unfoldable pub split_on : ℕ → Text → List Text
split_on d s = split_where (λ c. nat_beq c d) s

-- `[_]::join`
unfoldable pub join : ℕ → List Text → Text
join d [] = []
join d (w ∷ []) = w
join d (w ∷ v ∷ ws) = w ++ (d ∷ join d (v ∷ ws))

-- `char::is_whitespace`, Unicode's White_Space.
unfoldable pub is_space : ℕ → Bool
is_space c =
    (leb 9 c && leb c 13)
    || nat_beq c 32
    || nat_beq c 0x85
    || nat_beq c 0xa0
    || nat_beq c 0x1680
    || (leb 0x2000 c && leb c 0x200a)
    || nat_beq c 0x2028
    || nat_beq c 0x2029
    || nat_beq c 0x202f
    || nat_beq c 0x205f
    || nat_beq c 0x3000

unfoldable pub trim_start : Text → Text
trim_start [] = []
trim_start (c ∷ s) = let rest = trim_start s in if is_space c then rest else c ∷ s

unfoldable pub trim_end : Text → Text
trim_end [] = []
trim_end (c ∷ s) = let rest = trim_end s in if is_space c && is_empty rest then [] else c ∷ rest

-- `str::trim`
unfoldable pub trim : Text → Text
trim s = trim_end (trim_start s)

abbrev keep_words : List Text → List Text
keep_words [] = []
keep_words ([] ∷ ws) = keep_words ws
keep_words ((c ∷ w) ∷ ws) = (c ∷ w) ∷ keep_words ws

-- `str::split_whitespace`
unfoldable pub words : Text → List Text
words s = keep_words (split_where is_space s)

abbrev pub starts_with : Text → Text → Bool
starts_with [] s = true
starts_with (p ∷ ps) [] = false
starts_with (p ∷ ps) (c ∷ s) = nat_beq p c && starts_with ps s

-- `haystack.contains(needle)`
unfoldable pub contains : Text → Text → Bool
contains needle [] = is_empty needle
contains needle (c ∷ s) = starts_with needle (c ∷ s) || contains needle s

-- `str::lines`: a line ends before `\n` or `\r\n`; the text after the last end is a line if it is
-- not empty.
unfoldable pub lines : Text → List Text
lines [] = []
lines (c ∷ s) =
    let rest = lines s in
    if nat_beq c 10
    then [] ∷ rest
    else if nat_beq c 13 && starts_with (10 ∷ []) s
    then rest
    else glue c rest

-- `str::to_ascii_lowercase`
unfoldable pub to_ascii_lowercase : Text → Text
to_ascii_lowercase [] = []
to_ascii_lowercase (c ∷ s) = (if leb 65 c && leb c 90 then c + 32 else c) ∷ to_ascii_lowercase s

-- A text none of whose characters passes the test, and a list of such.
abbrev pub without : (ℕ → Bool) → Text → Bool
without p s = all (λ c. not (p c)) s

abbrev pub lacks : ℕ → Text → Bool
lacks d s = without (λ c. nat_beq c d) s

pub split_where-piece : (p : ℕ → Bool) (w : Text) → without p w ≡ true → split_where p w ≡ w ∷ []
unfolding split_where
split_where-piece p [] h = refl
split_where-piece p (c ∷ w) h = ground (arith, split_where-piece p w)

pub split_where-append :
    (p : ℕ → Bool) (w : Text) (d : ℕ) (s : Text)
    → without p w ≡ true
    → p d ≡ true
    → split_where p (w ++ (d ∷ s)) ≡ w ∷ split_where p s
unfolding split_where
split_where-append p [] d s h hd = rw hd
split_where-append p (c ∷ w) d s h hd = ground (arith, split_where-append p w d s)

pub split_on-join :
    (d : ℕ) (w : Text) (ws : List Text)
    → all (λ v. lacks d v) (w ∷ ws) ≡ true
    → split_on d (join d (w ∷ ws)) ≡ w ∷ ws
unfolding split_on join
split_on-join d w [] h = split_where-piece (λ c. nat_beq c d) w (ground arith)
split_on-join d w (v ∷ ws) h =
    split_where-append (λ c. nat_beq c d) w d (join d (v ∷ ws)) (ground arith) (ground arith)
    ∙ ap (◌∷◌ w) (split_on-join d v ws (ground arith))

-- A space is neither a piece of a word nor left at an end of two of them.
trim_start-word :
    (w s : Text) → is_empty w ≡ false → without is_space w ≡ true → trim_start (w ++ s) ≡ w ++ s
unfolding trim_start
trim_start-word [] s full h = absurd (cc)
trim_start-word (c ∷ w) s full h = ground arith

trim_end-word : (w : Text) → without is_space w ≡ true → trim_end w ≡ w
unfolding trim_end
trim_end-word [] h = refl
trim_end-word (c ∷ w) h = ground (arith, trim_end-word w)

pub is_empty-append {ℓ} :
    {A : Type ℓ} (s w : List A) → is_empty w ≡ false → is_empty (s ++ w) ≡ false
is_empty-append [] w full = full
is_empty-append (c ∷ s) w full = refl

trim_end-append : (s w : Text) → is_empty w ≡ false → trim_end w ≡ w → trim_end (s ++ w) ≡ s ++ w
unfolding trim_end
trim_end-append [] w full h = h
trim_end-append (c ∷ s) w full h =
    ground (arith, trim_end-append s w full h, is_empty-append s w full)

space : is_space 32 ≡ true
unfolding is_space
space = refl

keep_two :
    (w v : Text) → is_empty w ≡ false → is_empty v ≡ false → keep_words (w ∷ v ∷ []) ≡ w ∷ v ∷ []
keep_two [] v full_w full_v = absurd (cc)
keep_two (c ∷ w) [] full_w full_v = absurd (cc)
keep_two (c ∷ w) (d ∷ v) full_w full_v = refl

module _ (w v : Text) (full_w : is_empty w ≡ false) (full_v : is_empty v ≡ false)
    (one : without is_space w ≡ true) (two : without is_space v ≡ true) where
  pub trim-two : trim (w ++ (32 ∷ v)) ≡ w ++ (32 ∷ v)
  unfolding trim
  trim-two =
      ap trim_end (trim_start-word w (32 ∷ v) full_w one)
      ∙ trim_end-append w (32 ∷ v) refl (trim_end-append (32 ∷ []) v full_v (trim_end-word v two))

  pub words-two : words (w ++ (32 ∷ v)) ≡ w ∷ v ∷ []
  unfolding words
  words-two =
      rw (split_where-append is_space w 32 v one space, split_where-piece is_space v two)
        (keep_two w v full_w full_v)

pub lines-append :
    (w s : Text) → lacks 10 w ≡ true → lacks 13 w ≡ true → lines (w ++ (10 ∷ s)) ≡ w ∷ lines s
unfolding lines
lines-append [] s h hr = refl
lines-append (c ∷ w) s h hr = ground (arith, lines-append w s)

abbrev glue_first : ℕ → Option (Text × Text) → Option (Text × Text)
glue_first c none = none
glue_first c (some (a, b)) = some (c ∷ a, b)

-- `str::split_once`
unfoldable pub split_once : ℕ → Text → Option (Text × Text)
split_once d [] = none
split_once d (c ∷ s) =
    let rest = split_once d s in if nat_beq c d then some ([], s) else glue_first c rest

pub split_once-append :
    (d : ℕ) (a b : Text) → lacks d a ≡ true → split_once d (a ++ (d ∷ b)) ≡ some (a, b)
unfolding split_once
split_once-append d [] b h = ground arith
split_once-append d (c ∷ a) b h = ground (arith, split_once-append d a b)

pub trim-word : (w : Text) → is_empty w ≡ false → without is_space w ≡ true → trim w ≡ w
unfolding trim trim_start
trim-word [] full h = absurd (cc)
trim-word (c ∷ w) full h = ground (arith, trim_end-word (c ∷ w))
