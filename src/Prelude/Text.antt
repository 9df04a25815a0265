-- ===== src/Prelude/Text.antt =====
-- What the code uses of the packages `strings` and `strconv`. A text is a list of code points; `len`
-- counts the bytes of its UTF-8, as Go's `len` does.
pub mod Trim
pub mod Codes
use Prim.Native.Nat.{ℕ, zero, suc, ◌+◌, ◌-◌, ◌*◌, ◌^◌, Ordering}
use Prim.Native.Char.{Char, code}
use Prim.Native.String.{String, [], ◌∷◌, len, slice, find, compare}
use text.Mathlib.Text.{starts_with, ◌==◌}
use mathlib.Core.Bool.{Bool, true, false, ◌&&◌, ◌||◌}
use mathlib.Core.Option.{Option, none, some}
use omps_admin_plugin_accoun.Prelude.Tests.{leb, eqb, if◌then◌else◌}
use omps_admin_plugin_accoun.Prelude.Int.{ℤ, pos, negsuc}

-- `unicode.IsSpace`
unfoldable pub is_space : ℕ → Bool
is_space c =
    (leb 9 c && leb c 13)
    || eqb c 32
    || eqb c 0x85
    || eqb c 0xa0
    || eqb c 0x1680
    || (leb 0x2000 c && leb c 0x200a)
    || eqb c 0x2028
    || eqb c 0x2029
    || eqb c 0x202f
    || eqb c 0x205f
    || eqb c 0x3000

unfoldable pub trim_left : String → String
unfolding is_space
trim_left [] = []
trim_left (c ∷ s) = let rest = trim_left s in if is_space (code c) then rest else c ∷ s

abbrev pub cons_unless_blank : Bool → Char → String → String
cons_unless_blank true c [] = []
cons_unless_blank _ c rest = c ∷ rest

unfoldable pub trim_right : String → String
unfolding is_space
trim_right [] = []
trim_right (c ∷ s) = cons_unless_blank (is_space (code c)) c (trim_right s)

-- `strings.TrimSpace`
unfoldable pub trim_space : String → String
unfolding trim_left trim_right
trim_space s = trim_right (trim_left s)

-- Whether every code point passes a test.
abbrev pub all_codes : (ℕ → Bool) → String → Bool
all_codes p [] = true
all_codes p (c ∷ s) = p (code c) && all_codes p s

unfoldable pub is_digit : ℕ → Bool
is_digit c = leb b'0' c && leb c b'9'

unfoldable pub is_lower_letter : ℕ → Bool
is_lower_letter c = leb b'a' c && leb c b'z'

unfoldable pub is_upper_letter : ℕ → Bool
is_upper_letter c = leb b'A' c && leb c b'Z'

unfoldable pub is_hex_digit : ℕ → Bool
unfolding is_digit
is_hex_digit c = is_digit c || (leb b'a' c && leb c b'f') || (leb b'A' c && leb c b'F')

-- The number that a run of decimal digits goes on to, from the number read so far.
unfoldable pub read_digits : ℕ → String → Option ℕ
unfolding is_digit
read_digits n [] = some n
read_digits n (c ∷ s) =
    let rest = read_digits (n * 10 + (code c - b'0')) s in if is_digit (code c) then rest else none

abbrev pub in_range : (ℕ → ℤ) → ℕ → Option ℕ → Option ℤ
in_range sign most none = none
in_range sign most (some n) = if leb n most then some (sign n) else none

abbrev pub negate : ℕ → ℤ
negate zero = pos 0
negate (suc n) = negsuc n

abbrev digits_only : (ℕ → ℤ) → ℕ → String → Option ℤ
digits_only sign most [] = none
digits_only sign most (c ∷ s) = in_range sign most (read_digits 0 (c ∷ s))

-- `strconv.Atoi`, with `none` for its error: an optional sign, digits, and a value of 64 bits.
unfoldable pub atoi : String → Option ℤ
unfolding read_digits
atoi [] = none
atoi (c ∷ s) =
    if eqb (code c) b'-'
    then digits_only negate (2 ^ 63) s
    else if eqb (code c) b'+'
    then digits_only pos (2 ^ 63 - 1) s
    else digits_only pos (2 ^ 63 - 1) (c ∷ s)

-- The first `n` code points; the whole text if there are fewer.
abbrev pub take_text : ℕ → String → String
take_text zero s = []
take_text (suc n) [] = []
take_text (suc n) (c ∷ s) = c ∷ take_text n s

abbrev pub drop_text : ℕ → String → String
drop_text zero s = s
drop_text (suc n) [] = []
drop_text (suc n) (c ∷ s) = drop_text n s

-- The text that holds the code point at a position alone; empty past the end.
abbrev pub nth_text : String → ℕ → String
nth_text [] i = []
nth_text (c ∷ s) zero = c ∷ []
nth_text (c ∷ s) (suc i) = nth_text s i

-- `strings.TrimPrefix`
unfoldable pub trim_prefix : String → String → String
trim_prefix s prefix = if starts_with s prefix then slice s (len prefix) (len s) else s

-- `strings.HasSuffix`
unfoldable pub ends_with : String → String → Bool
ends_with s suffix = leb (len suffix) (len s) && slice s (len s - len suffix) (len s) == suffix

-- `s > t` of two texts, which Go compares byte by byte.
abbrev pub gtb_text : String → String → Bool
gtb_text s t = elim (compare s t) [ Ordering.gt ↦ true | _ ↦ false ]

-- `strings.Contains`
unfoldable pub contains_text : String → String → Bool
contains_text s t = leb (find s t) (len s)
