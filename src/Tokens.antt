-- ===== src/Tokens.antt =====
-- account_tokens.go, and `randomHex` of account_temporary_admin.go: tokens and ids drawn from the entropy
-- source, with their fall-backs on the clock.
pub mod Short
pub mod Drawn
use Prim.Native.String.{len}
use omps_admin_plugin_accoun.Prelude.{
  ℕ, zero, suc, ◌+◌, ◌/◌, ◌%◌, String, ◌<>◌, Option, none, some, List, [], ◌∷◌, ltb, eqb,
  if◌then◌else◌,
}
use omps_admin_plugin_accoun.Prelude.Int.{ℤ, pos, negsuc, pos_part}
use omps_admin_plugin_accoun.Prelude.Text.{take_text, drop_text, nth_text}
use omps_admin_plugin_accoun.Prelude.Exec.{Exec, pure, ◌>>=◌, on_none}
use omps_admin_plugin_accoun.Account.{Result, ok, fail, failure}
use omps_admin_plugin_accoun.Platform.{Env, World, call}

abbrev pub hex_chars : String
hex_chars = "0123456789abcdef"

-- `hex.EncodeToString`
unfoldable pub encode_hex : List ℕ → String
encode_hex [] = ""
encode_hex (b ∷ bs) =
    nth_text hex_chars (b / 16 % 16) <> nth_text hex_chars (b % 16) <> encode_hex bs

-- The digits of `strconv.FormatInt(n, 16)`, with fuel for as many digits.
unfoldable pub hex_digits : ℕ → ℕ → String
hex_digits zero n = ""
hex_digits (suc f) n =
    let high = hex_digits f (n / 16) in
    if ltb n 16 then nth_text hex_chars n else high <> nth_text hex_chars (n % 16)

-- `strconv.FormatInt(n, 16)`: a value of 64 bits has 16 digits at most.
unfoldable pub format_hex : ℤ → String
unfolding hex_digits
format_hex (pos n) = hex_digits 16 n
format_hex (negsuc n) = "-" <> hex_digits 16 (suc n)

abbrev pub short_id_chars : String
short_id_chars = "ABCDEFGHIJKLMNOPQRSTUVWXYZabcdefghijklmnopqrstuvwxyz0123456789"

-- The loop over the bytes that were read.
unfoldable pub short_id_of_bytes : ℕ → List ℕ → String
short_id_of_bytes zero bs = ""
short_id_of_bytes (suc n) [] = nth_text short_id_chars 0 <> short_id_of_bytes n []
short_id_of_bytes (suc n) (b ∷ bs) = nth_text short_id_chars (b % 62) <> short_id_of_bytes n bs

module _ (env : Env) where
  unfoldable pub rand_hex_string : ℕ → Exec (World env) String
  rand_hex_string n = do
    bytes ← call (env.read_random ((n + 1) / 2))
    on_none bytes (do t ← call env.now; pure (format_hex t))
        λ buf. pure (take_text n (encode_hex buf))

  unfoldable pub new_token : Exec (World env) String
  new_token = rand_hex_string 32

  -- `none` is the panic of a slice that is out of range.
  unfoldable pub new_uuid_like_id : Exec (World env) (Option String)
  new_uuid_like_id = do
    s ← rand_hex_string 32
    if ltb (len s) 32
        then pure none
        else pure (
            some (
              take_text 8 s
              <> "-"
              <> take_text 4 (drop_text 8 s)
              <> "-"
              <> take_text 4 (drop_text 12 s)
              <> "-"
              <> take_text 4 (drop_text 16 s)
              <> "-"
              <> take_text 12 (drop_text 20 s)))

  -- A used-up `fallback` is drawn from the clock again, which is past 1970.
  unfoldable pub next_fallback : ℕ → ℕ → Exec (World env) ℕ
  next_fallback i fallback =
      if eqb fallback 0 then (do t ← call env.now; pure (pos_part t + i)) else pure fallback

  -- The fall-back loop: `left` rounds remain, the next is round `i`.
  unfoldable pub short_id_of_clock : ℕ → ℕ → ℕ → Exec (World env) String
  short_id_of_clock zero i fallback = pure ""
  short_id_of_clock (suc left) i fallback = do
    next ← next_fallback i (fallback / 62)
    rest ← short_id_of_clock left (suc i) next
    pure (nth_text short_id_chars (fallback % 62) <> rest)

  unfoldable pub new_short_id : Exec (World env) String
  new_short_id = do
    bytes ← call (env.read_random 12)
    on_none bytes (do t ← call env.now; short_id_of_clock 12 0 (pos_part t))
        λ b. pure (short_id_of_bytes 12 b)

  -- `randomHex(n)`: n bytes as 2n digits, or the error of the entropy source.
  unfoldable pub random_hex : ℕ → Exec (World env) (Result String)
  random_hex n = do
    bytes ← call (env.read_random n)
    on_none bytes (pure (fail (failure "rand read"))) λ b. pure (ok (encode_hex b))
