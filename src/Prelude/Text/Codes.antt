-- ===== src/Prelude/Text/Codes.antt =====
-- Texts of which every code point passes a test.
use Prim.Native.Nat.{ℕ, zero, suc, ◌<◌}
use Prim.Native.Char.{Char, code, len_utf8}
use Prim.Native.String.{String, [], ◌∷◌, len, ◌++◌ as ◌<>◌}
use Prim.Native.String.len
use mathlib.Core.Path.{◌≡◌, refl, ap, ◌∙◌}
use mathlib.Core.Bool.{Bool, true, false, ◌&&◌}
use native.Mathlib.Omega.{arith}
use text.Mathlib.TextLemmas.{nil-append, cons-append}
use omps_admin_plugin_accoun.Prelude.Tests.{eqb}
use omps_admin_plugin_accoun.Prelude.Text.{
  is_space, all_codes, nth_text, trim_left, cons_unless_blank, trim_right, trim_space,
}

pub all_codes-append :
    (p : ℕ → Bool) (s t : String)
    → all_codes p s ≡ true
    → all_codes p t ≡ true
    → all_codes p (s <> t) ≡ true
all_codes-append p [] t h h' = ap (all_codes p) (nil-append t) ∙ h'
all_codes-append p (c ∷ s) t h h' = ground (arith, h, h', cons-append c s t, all_codes-append p s t)

pub all_codes-nth_text :
    (p : ℕ → Bool) (s : String) (i : ℕ) → all_codes p s ≡ true → all_codes p (nth_text s i) ≡ true
all_codes-nth_text p [] i h = refl
all_codes-nth_text p (c ∷ s) zero h = ground (arith, h)
all_codes-nth_text p (c ∷ s) (suc i) h = all_codes-nth_text p s i (ground (arith, h))

-- Whether every code point takes one byte.
abbrev pub one_byte : String → Bool
one_byte [] = true
one_byte (c ∷ s) = eqb (len_utf8 c) 1 && one_byte s

one_byte-head : (c : Char) (b : Bool) → eqb (len_utf8 c) 1 && b ≡ true → len_utf8 c ≡ 1
one_byte-head c b h = ground arith

pub len-nth_text : (s : String) (i : ℕ) → one_byte s ≡ true → i < len s → len (nth_text s i) ≡ 1
len-nth_text [] i h l = ground arith
len-nth_text (c ∷ s) zero h l = len.cons c [] ∙ ground (arith, one_byte-head c (one_byte s) h)
len-nth_text (c ∷ s) (suc i) h l =
    len-nth_text s i (ground (arith, h))
      (ground (arith, one_byte-head c (one_byte s) h, len.cons c s, l))

module _ (p : ℕ → Bool) (solid : (c : ℕ) → p c ≡ true → is_space c ≡ false) where
  cons-solid :
      (c : Char) (s r : String)
      → all_codes p (c ∷ s) ≡ true
      → r ≡ s
      → cons_unless_blank (is_space (code c)) c r ≡ c ∷ s
  cons-solid c s r h e = rw (solid (code c) (ground (arith, h)), e) refl

  trim_right-all_codes : (s : String) → all_codes p s ≡ true → trim_right s ≡ s
  unfolding trim_right
  trim_right-all_codes [] h = refl
  trim_right-all_codes (c ∷ s) h = cons-solid c s _ h (trim_right-all_codes s (ground (arith, h)))

  -- A text without blanks has nothing to trim.
  pub trim_space-all_codes : (s : String) → all_codes p s ≡ true → trim_space s ≡ s
  unfolding trim_space trim_left
  trim_space-all_codes [] h = trim_right-all_codes [] h
  trim_space-all_codes (c ∷ s) h =
      rw (solid (code c) (ground (arith, h))) (trim_right-all_codes (c ∷ s) h)
