-- ===== src/Validation/RecordId.antt =====
-- `validRecordID` tries `uuidRE` first, which admits nothing that `recordIDRE` does not.
use Prim.Native.String.{len}
use Prim.Native.String.len
use Prim.Native.Char.{len_utf8, len_utf8_def}
use omps_admin_plugin_accoun.Prelude.{
  ℕ, zero, suc, ◌+◌, Char, code, String, ◌≡◌, refl, ap, ◌∙◌, Bool, true, ◌&&◌, ◌||◌, arith, eqb,
  Bool-cases, inl, inr,
}
use omps_admin_plugin_accoun.Prelude.Text.{
  is_digit, is_lower_letter, is_upper_letter, is_hex_digit, all_codes, trim_space,
}
use omps_admin_plugin_accoun.Prelude.Text.Trim.{trim_space-idempotent}
use omps_admin_plugin_accoun.Validation.{
  hex_group, dash, at_end, matches_uuid, is_record_id_char, matches_record_id, valid_uuid,
  valid_record_id,
}

-- `n` bytes, each a letter, a digit, `_` or `-`.
abbrev IsWord : ℕ → String → Type 0
IsWord n s = (all_codes is_record_id_char s ≡ true) × (len s ≡ n)

one_byte_char : (c : Char) → is_record_id_char (code c) ≡ true → len_utf8 c ≡ 1
unfolding is_record_id_char is_upper_letter is_lower_letter is_digit
one_byte_char c h = len_utf8_def c ∙ ground (arith, h)

cons-IsWord :
    (n : ℕ) (c : Char) (s : String)
    → is_record_id_char (code c) ≡ true
    → IsWord n s
    → IsWord (suc n) (String.◌∷◌ c s)
cons-IsWord n c s h (codes, counted) =
    (ground (arith, h, codes), len.cons c s ∙ ground (arith, one_byte_char c h, counted))

hex-is_record_id_char : (c : ℕ) → is_hex_digit c ≡ true → is_record_id_char c ≡ true
unfolding is_record_id_char is_hex_digit is_upper_letter is_lower_letter is_digit
hex-is_record_id_char c h = ground (arith, h)

-- What the rest of an expression admits are words of `k` bytes.
abbrev Admits : (String → Bool) → ℕ → Type 0
Admits rest k = (s : String) → rest s ≡ true → IsWord k s

both : (a b : Bool) → a && b ≡ true → (a ≡ true) × (b ≡ true)
both a b h = (ground (arith, h), ground (arith, h))

hex_group-Admits :
    (n k : ℕ) (rest : String → Bool) → Admits rest k → Admits (hex_group n rest) (n + k)
hex_group-Admits zero k rest admits s h = (((admits s h).0), (admits s h).1 ∙ omega arith)
hex_group-Admits (suc n) k rest admits String.[] h = ground (arith, h)
hex_group-Admits (suc n) k rest admits (String.◌∷◌ c s) h =
    let (digit, later) = both (is_hex_digit (code c)) (hex_group n rest s) h in
    let (codes, counted) =
      cons-IsWord (n + k) c s (hex-is_record_id_char (code c) digit)
        (hex_group-Admits n k rest admits s later) in
    (codes, counted ∙ omega arith)

dash-Admits : (k : ℕ) (rest : String → Bool) → Admits rest k → Admits (dash rest) (suc k)
unfolding is_record_id_char
dash-Admits k rest admits String.[] h = ground (arith, h)
dash-Admits k rest admits (String.◌∷◌ c s) h =
    let (sign, later) = both (eqb (code c) b'-') (rest s) h in
    cons-IsWord k c s (ground (arith, sign)) (admits s later)

at_end-Admits : Admits at_end 0
at_end-Admits String.[] h = (refl, refl)
at_end-Admits (String.◌∷◌ c s) h = ground (arith, h)

matches_uuid-IsWord : Admits matches_uuid 36
unfolding matches_uuid
matches_uuid-IsWord = hex_group-Admits 8 28 _ (
    dash-Admits 27 _ (
      hex_group-Admits 4 23 _ (
        dash-Admits 22 _ (
          hex_group-Admits 4 18 _ (
            dash-Admits 17 _ (
              hex_group-Admits 4 13 _
                (dash-Admits 12 _ (hex_group-Admits 12 0 _ at_end-Admits))))))))

-- validRecordID accepts exactly the texts that recordIDRE matches once trimmed: the expression for
-- UUIDs that it tries first admits nothing more.
pub valid_record_id-matches_record_id :
    (id : String) → valid_record_id id ≡ matches_record_id (trim_space id)
unfolding valid_record_id valid_uuid matches_record_id
valid_record_id-matches_record_id id =
    ap (λ t. matches_uuid t || matches_record_id (trim_space id)) (trim_space-idempotent id)
    ∙ elim (Bool-cases (matches_uuid (trim_space id))) [
      | inl e ↦
          let (codes, counted) = matches_uuid-IsWord (trim_space id) e in
          ground (arith, e, codes, counted)
      | inr e ↦ ground (arith, e)
    ]
