-- ===== src/Tokens/Drawn.antt =====
-- The tokens that `newToken` draws hold hexadecimal digits, whatever the entropy source does; the
-- fall-back may put a sign before them.
use omps_admin_plugin_accoun.Prelude.{
  ℕ, zero, suc, ◌/◌, ◌%◌, String, ◌≡◌, refl, Bool, true, false, ◌||◌, List, [], ◌∷◌, arith, ltb,
  eqb, if_cases,
}
use omps_admin_plugin_accoun.Prelude.Int.{ℤ, pos, negsuc}
use omps_admin_plugin_accoun.Prelude.Text.{
  is_space, is_digit, all_codes, is_hex_digit, take_text, nth_text, trim_space,
}
use omps_admin_plugin_accoun.Prelude.Text.Codes.{
  all_codes-append, all_codes-nth_text, trim_space-all_codes,
}
use omps_admin_plugin_accoun.Platform.{Env, World}
use omps_admin_plugin_accoun.Platform.Ends.{Ends, Ends-pure, Ends-bind, Ends-on_none}
use omps_admin_plugin_accoun.Tokens.{
  hex_chars, encode_hex, hex_digits, format_hex, rand_hex_string, new_token,
}

is_token_char : ℕ → Bool
unfolding is_hex_digit is_digit
is_token_char c = is_hex_digit c || eqb c b'-'

hex_char : (i : ℕ) → all_codes is_token_char (nth_text hex_chars i) ≡ true
unfolding is_token_char is_hex_digit is_digit
hex_char i = all_codes-nth_text is_token_char hex_chars i refl

encode_hex-codes : (bs : List ℕ) → all_codes is_token_char (encode_hex bs) ≡ true
unfolding encode_hex
encode_hex-codes [] = refl
encode_hex-codes (b ∷ bs) =
    all_codes-append is_token_char _ _ (hex_char (b / 16 % 16))
      (all_codes-append is_token_char _ _ (hex_char (b % 16)) (encode_hex-codes bs))

hex_digits-codes : (f n : ℕ) → all_codes is_token_char (hex_digits f n) ≡ true
unfolding hex_digits
hex_digits-codes zero n = refl
hex_digits-codes (suc f) n =
    if_cases (λ s. all_codes is_token_char s ≡ true) (ltb n 16) _ _ (λ e. hex_char n)
      (λ e. all_codes-append is_token_char _ _ (hex_digits-codes f (n / 16)) (hex_char (n % 16)))

sign-is_token_char : all_codes is_token_char "-" ≡ true
unfolding is_token_char is_hex_digit is_digit
sign-is_token_char = refl

format_hex-codes : (t : ℤ) → all_codes is_token_char (format_hex t) ≡ true
unfolding format_hex
format_hex-codes (pos n) = hex_digits-codes 16 n
format_hex-codes (negsuc n) =
    all_codes-append is_token_char "-" _ sign-is_token_char (hex_digits-codes 16 (suc n))

all_codes-take_text :
    (p : ℕ → Bool) (n : ℕ) (s : String) → all_codes p s ≡ true → all_codes p (take_text n s) ≡ true
all_codes-take_text p zero s h = refl
all_codes-take_text p (suc n) String.[] h = refl
all_codes-take_text p (suc n) (String.◌∷◌ c s) h = ground (arith, h, all_codes-take_text p n s)

solid : (c : ℕ) → is_token_char c ≡ true → is_space c ≡ false
unfolding is_token_char is_hex_digit is_digit is_space
solid c h = ground (arith, h)

-- A token has no blanks around it.
pub trim_space-new_token :
    (env : Env) (w : World env) → trim_space (new_token env w).0 ≡ (new_token env w).0
unfolding new_token rand_hex_string
trim_space-new_token env w =
    let go : Ends (λ s _. all_codes is_token_char s ≡ true) (new_token env) w = Ends-bind _ _ (
      Ends-on_none _ _ _ (λ _. Ends-bind _ _ (Ends-pure _ (format_hex-codes _)))
        (λ bs _. Ends-pure _ (all_codes-take_text is_token_char 32 _ (encode_hex-codes bs)))) in
    trim_space-all_codes is_token_char solid _ go.at
