-- ===== src/Tokens/Short.antt =====
-- The ids that `newShortID` draws: 12 letters and digits, whatever the entropy source does.
use Prim.Native.String.{len}
use text.Mathlib.TextPositions.{len-append}
use omps_admin_plugin_accoun.Prelude.{
  ℕ, zero, suc, ◌/◌, ◌%◌, String, ◌<>◌, ◌≡◌, refl, ◌∙◌, true, false, List, [], ◌∷◌, arith,
}
use omps_admin_plugin_accoun.Prelude.Text.{
  is_space, all_codes, is_digit, is_lower_letter, is_upper_letter, nth_text, trim_space,
}
use omps_admin_plugin_accoun.Prelude.Text.Codes.{
  all_codes-append, all_codes-nth_text, len-nth_text, trim_space-all_codes,
}
use omps_admin_plugin_accoun.Prelude.Exec.{pure, ◌>>=◌}
use omps_admin_plugin_accoun.Platform.{Env, World}
use omps_admin_plugin_accoun.Platform.Ends.{Ends, Ends-pure, Ends-bind, Ends-on_none}
use omps_admin_plugin_accoun.Validation.{is_record_id_char, matches_record_id, valid_record_id}
use omps_admin_plugin_accoun.Tokens.{
  short_id_chars, short_id_of_bytes, next_fallback, short_id_of_clock, new_short_id,
}

-- `n` letters, digits, `_` or `-`.
pub record IsWord (n : ℕ) (s : String) : Type 0 where
  pub codes : all_codes is_record_id_char s ≡ true
  pub counted : len s ≡ n

one_more :
    (n i : ℕ) (s : String) → IsWord n s → IsWord (suc n) (nth_text short_id_chars (i % 62) <> s)
unfolding is_record_id_char is_upper_letter is_lower_letter is_digit
one_more n i s h = record {
  codes =
      all_codes-append is_record_id_char (nth_text short_id_chars (i % 62)) s
        (all_codes-nth_text is_record_id_char short_id_chars (i % 62) refl) h.codes;
  counted =
      len-append (nth_text short_id_chars (i % 62)) s
      ∙ ground (arith, h.counted, len-nth_text short_id_chars (i % 62) refl (ground arith));
}

short_id_of_bytes-IsWord : (n : ℕ) (bs : List ℕ) → IsWord n (short_id_of_bytes n bs)
unfolding short_id_of_bytes
short_id_of_bytes-IsWord zero bs = record { codes = refl; counted = refl }
short_id_of_bytes-IsWord (suc n) [] = one_more n 0 _ (short_id_of_bytes-IsWord n [])
short_id_of_bytes-IsWord (suc n) (b ∷ bs) = one_more n b _ (short_id_of_bytes-IsWord n bs)

module _ (env : Env) where
  short_id_of_clock-IsWord :
      (left i fallback : ℕ) (w : World env)
      → IsWord left (short_id_of_clock env left i fallback w).0
  unfolding short_id_of_clock ◌>>=◌ pure
  short_id_of_clock-IsWord zero i fallback w = record { codes = refl; counted = refl }
  short_id_of_clock-IsWord (suc left) i fallback w =
      let (next, w') = next_fallback env i (fallback / 62) w in
      one_more left fallback _ (short_id_of_clock-IsWord left (suc i) next w')

  -- An id of `newShortID` is 12 bytes of letters and digits, with or without the entropy source.
  pub new_short_id-IsWord : (w : World env) → IsWord 12 (new_short_id env w).0
  unfolding new_short_id
  new_short_id-IsWord w =
      let go : Ends (λ s _. IsWord 12 s) (new_short_id env) w = Ends-bind _ _ (
        Ends-on_none _ _ _ (λ _. Ends-bind _ _ (record { at = short_id_of_clock-IsWord 12 0 _ _ }))
          (λ bs _. Ends-pure _ (short_id_of_bytes-IsWord 12 bs))) in
      go.at

solid : (c : ℕ) → is_record_id_char c ≡ true → is_space c ≡ false
unfolding is_record_id_char is_upper_letter is_lower_letter is_digit is_space
solid c h = ground (arith, h)

-- Such an id has no blanks around it.
pub trim_space-new_short_id :
    (env : Env) (w : World env) → trim_space (new_short_id env w).0 ≡ (new_short_id env w).0
trim_space-new_short_id env w =
    trim_space-all_codes is_record_id_char solid _ (new_short_id-IsWord env w).codes

-- An id that newShortID draws, from the entropy source or from the clock, is 12 bytes long and
-- passes validRecordID.
pub new_short_id-valid_record_id :
    (env : Env) (w : World env)
    → (len (new_short_id env w).0 ≡ 12) × (valid_record_id (new_short_id env w).0 ≡ true)
unfolding valid_record_id matches_record_id
new_short_id-valid_record_id env w =
    let word = new_short_id-IsWord env w in
    (word.counted, ground (arith, word.codes, word.counted, trim_space-new_short_id env w))
