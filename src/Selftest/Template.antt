-- ===== src/Selftest/Template.antt =====
-- The template variables of selftest.go: `templateVars` to `selftestSessionToken`, and `randHex`.
use Prim.Native.Char.{Char, code}
use Prim.Native.String.{len}
use omps_admin_plugin_accoun.Prelude.{
  ℕ, zero, suc, ◌+◌, ◌-◌, ◌/◌, ◌%◌, String, ◌<>◌, Bool, ◌&&◌, ◌||◌, Option, none, some, List, [],
  ◌∷◌, ◌==◌, ltb, leb, eqb, if◌then◌else◌,
}
use omps_admin_plugin_accoun.Prelude.Int.{ℤ, pos, negsuc, pos_part, ltb_ℤ}
use omps_admin_plugin_accoun.Prelude.Text.{
  is_digit, is_lower_letter, is_upper_letter, atoi, take_text, nth_text,
}
use omps_admin_plugin_accoun.Prelude.Dict.{Dict, lookup, insert}
use omps_admin_plugin_accoun.Prelude.Exec.{Exec, pure, ◌>>=◌, on_none, on_some}
use omps_admin_plugin_accoun.Account.{on_error}
use omps_admin_plugin_accoun.Platform.{Env, World, call}
use omps_admin_plugin_accoun.Tokens.{encode_hex, format_hex}
use omps_admin_plugin_accoun.Session.{create_session}

-- The digits of `strconv.FormatInt(n, 10)`, with fuel for as many digits.
unfoldable pub decimal_digits : ℕ → ℕ → String
decimal_digits zero n = ""
decimal_digits (suc f) n =
    let high = decimal_digits f (n / 10) in
    if ltb n 10 then nth_text "0123456789" n else high <> nth_text "0123456789" (n % 10)

-- `strconv.FormatInt(n, 10)`: a value of 64 bits has 20 digits at most.
unfoldable pub format_int : ℤ → String
unfolding decimal_digits
format_int (pos n) = decimal_digits 20 n
format_int (negsuc n) = "-" <> decimal_digits 20 (suc n)

-- The whole units in a time; downward, as `Unix` and `UnixMilli` count.
abbrev pub whole : ℤ → ℕ → ℤ
whole (pos n) unit = pos (n / unit)
whole (negsuc n) unit = negsuc (n / unit)

pub record TemplateVars : Type 0 where
  pub ts : String
  pub ts_ms : String
  pub uuid : String
  pub range_tag : String
  pub cache : Dict String

-- A match of `templateVarRE`: the name, the argument or an empty text, and the width in code points.
pub record Placeholder : Type 0 where
  pub name : String
  pub arg : String
  pub width : ℕ

pub data Token : Type 0 where
  literal : Char → Token
  placeholder : Placeholder → Token

unfoldable pub is_name_char : ℕ → Bool
is_name_char c = is_lower_letter c || is_upper_letter c || eqb c b'_'

unfoldable pub is_arg_char : ℕ → Bool
is_arg_char c = is_lower_letter c || is_upper_letter c || is_digit c || eqb c b'_' || eqb c b'-'

-- The longest run of code points that pass a test, its length, and what follows.
pub record Run : Type 0 where
  pub text : String
  pub count : ℕ
  pub rest : String

unfoldable pub span : (ℕ → Bool) → String → Run
span p String.[] = record { text = ""; count = 0; rest = "" }
span p (String.◌∷◌ c s) =
    let more = span p s in
    if p (code c)
    then record { text = String.◌∷◌ c more.text; count = suc more.count; rest = more.rest }
    else record { text = ""; count = 0; rest = String.◌∷◌ c s }

-- What follows the argument: the brace that closes it.
abbrev pub close_arg : Run → Run → String → Option Placeholder
close_arg name arg String.[] = none
close_arg name arg (String.◌∷◌ c s) =
    if eqb (code c) b'}' && ltb 0 arg.count
    then some (record { name = name.text; arg = arg.text; width = name.count + arg.count + 4 })
    else none

-- What follows the name: the brace, or a colon and an argument.
abbrev pub after_name : Run → String → Option Placeholder
after_name name String.[] = none
after_name name (String.◌∷◌ c s) =
    let arg = span is_arg_char s in
    if eqb (code c) b'}'
    then some (record { name = name.text; arg = ""; width = name.count + 3 })
    else if eqb (code c) b':'
    then close_arg name arg arg.rest
    else none

abbrev pub braced : String → Option Placeholder
braced s =
    let name = span is_name_char s in if ltb 0 name.count then after_name name name.rest else none

-- A match of `templateVarRE` at the start of a text.
unfoldable pub match_at : Char → String → Option Placeholder
match_at c String.[] = none
match_at c (String.◌∷◌ d s) = if eqb (code c) b'$' && eqb (code d) b'{' then braced s else none

abbrev pub place : Char → Option Placeholder → (ℕ → List Token) → List Token
place c none rest = literal c ∷ rest 0
place c (some p) rest = placeholder p ∷ rest (p.width - 1)

-- The text cut at the matches that `ReplaceAllStringFunc` finds, from the left and without overlap;
-- `skip` code points still belong to the last match.
unfoldable pub tokens : ℕ → String → List Token
tokens skip String.[] = []
tokens (suc skip) (String.◌∷◌ c s) = tokens skip s
tokens zero (String.◌∷◌ c s) = place c (match_at c s) (λ k. tokens k s)

-- The key of the cache.
abbrev pub key_of : Placeholder → String
key_of p = if p.arg == "" then p.name else p.name <> ":" <> p.arg

-- The length that `${rand:N}` asks for: 6, unless N is a number from 1 to 32.
abbrev pub rand_length : Option ℤ → ℕ
rand_length none = 6
rand_length (some k) = if ltb_ℤ (pos 0) k && ltb_ℤ k (pos 33) then pos_part k else 6

module _ (env : Env) where
  unfoldable pub rand_hex : ℕ → Exec (World env) String
  rand_hex n = do
    bytes ← call (env.read_random ((n + 1) / 2))
    on_none bytes
        (do
          now ← call env.now
          let fallback = format_hex now
          pure (if leb n (len fallback) then take_text n fallback else fallback))
        λ buf. pure (take_text n (encode_hex buf))

  unfoldable pub build_template_vars : Exec (World env) TemplateVars
  build_template_vars = do
    now ← call env.now
    uuid ← rand_hex 32
    pure (record {
      ts = format_int (whole now 1000000000);
      ts_ms = format_int (whole now 1000000);
      uuid = uuid;
      range_tag = "test_req_selftest_";
      cache = [];
    })

  unfoldable pub selftest_session_token : String → Exec (World env) String
  selftest_session_token account_id = do
    session ← create_session env account_id
    on_error session (λ e. pure "") λ s. pure s.0

  unfoldable pub resolve_template_name : Placeholder → TemplateVars → Exec (World env) String
  resolve_template_name p v =
      if p.name == "internal_token"
      then pure (env.getenv "RUNTIME_INTERNAL_TOKEN")
      else if p.name == "range_tag"
      then pure v.range_tag
      else if p.name == "admin_session_token"
      then selftest_session_token "10000000-0000-0000-0000-000000000001"
      else if p.name == "operator_session_token"
      then selftest_session_token "10000000-0000-0000-0000-000000000002"
      else if p.name == "role_state_session_token"
      then selftest_session_token "10000000-0000-0000-0000-000000000004"
      else if p.name == "ts"
      then pure v.ts
      else if p.name == "ts_ms"
      then pure v.ts_ms
      else if p.name == "uuid"
      then pure v.uuid
      else if p.name == "rand"
      then rand_hex (if p.arg == "" then 6 else rand_length (atoi p.arg))
      else pure ("${" <> key_of p <> "}")

  -- The value of a match: from the cache, or resolved and put there.
  unfoldable pub resolve_cached :
      Placeholder → TemplateVars → Exec (World env) (String × TemplateVars)
  resolve_cached p v =
      on_some (lookup (key_of p) v.cache) (λ cached. pure (cached, v))
        do
          value ← resolve_template_name p v
          pure (value, record v { cache = insert (key_of p) value v.cache })

  unfoldable pub apply_tokens : List Token → TemplateVars → Exec (World env) (String × TemplateVars)
  apply_tokens [] v = pure ("", v)
  apply_tokens (literal c ∷ ts) v = do rest ← apply_tokens ts v; pure (String.◌∷◌ c rest.0, rest.1)
  apply_tokens (placeholder p ∷ ts) v = do
    value ← resolve_cached p v
    rest ← apply_tokens ts value.1
    pure (value.0 <> rest.0, rest.1)

  -- The result beside the variables, whose cache has grown.
  unfoldable pub apply_template_vars :
      String → TemplateVars → Exec (World env) (String × TemplateVars)
  apply_template_vars s v = if s == "" then pure (s, v) else apply_tokens (tokens 0 s) v
