-- ===== src/Prelude/Text/Trim.antt =====
-- `strings.TrimSpace` done twice.
use Prim.Native.Char.{Char, code}
use Prim.Native.String.{String, [], ◌∷◌}
use mathlib.Core.Path.{◌≡◌, refl}
use mathlib.Core.Logic.{inl, inr}
use mathlib.Core.Bool.{Bool, true, false}
use native.Mathlib.Omega.{arith}
use omps_admin_plugin_accoun.Prelude.Tests.{Bool-cases}
use omps_admin_plugin_accoun.Prelude.Text.{
  is_space, trim_left, cons_unless_blank, trim_right, trim_space,
}

trim_right-cons :
    (b : Bool) (c : Char) (r : String)
    → is_space (code c) ≡ b
    → trim_right r ≡ r
    → trim_right (cons_unless_blank b c r) ≡ cons_unless_blank b c r
unfolding trim_right
trim_right-cons true c [] e h = refl
trim_right-cons true c (d ∷ r) e h = ground (arith, e, h)
trim_right-cons false c r e h = ground (arith, e, h)

trim_right-idempotent : (s : String) → trim_right (trim_right s) ≡ trim_right s
unfolding trim_right
trim_right-idempotent [] = refl
trim_right-idempotent (c ∷ s) =
    trim_right-cons (is_space (code c)) c (trim_right s) refl (trim_right-idempotent s)

trim_left-trim_right :
    (s : String) → trim_left (trim_right (trim_left s)) ≡ trim_right (trim_left s)
unfolding trim_left trim_right
trim_left-trim_right [] = refl
trim_left-trim_right (c ∷ s) = elim (Bool-cases (is_space (code c))) [
  | inl b ↦ ground (arith, b, trim_left-trim_right s)
  | inr b ↦ ground (arith, b)
]

pub trim_space-idempotent : (s : String) → trim_space (trim_space s) ≡ trim_space s
unfolding trim_space
trim_space-idempotent s = rw (trim_left-trim_right s, trim_right-idempotent (trim_left s)) refl
