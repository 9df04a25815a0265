-- ===== src/Config/Ttl.antt =====
-- The life of a session that `readSessionTTL` of main.go computes.
use omps_admin_plugin_accoun.Prelude.{
  ℕ, zero, suc, ◌-◌, ◌*◌, ◌^◌, ◌≤◌, ◌≡◌, refl, ap, ◌∙◌, String, Bool, true, false, Option, none,
  some, arith, ◌==◌, if◌then◌else◌, if_cases,
}
use omps_admin_plugin_accoun.Prelude.Int.{ℤ, pos, negsuc, ltb_ℤ, ◌*ℤ◌, wrap_64}
use omps_admin_plugin_accoun.Prelude.Text.{atoi, read_digits, is_digit}
use omps_admin_plugin_accoun.Prelude.Dict.{Dict, get_or}
use omps_admin_plugin_accoun.Config.{raw_ttl, seconds_or_default, read_session_ttl}

-- How long a session lasts by the number in the setting: as long as a positive number says, and
-- otherwise eight hours.
abbrev pub lasting : Option ℤ → ℕ
lasting (some (pos (suc n))) = suc n
lasting (some (pos zero)) = 8 * 60 * 60
lasting (some (negsuc n)) = 8 * 60 * 60
lasting none = 8 * 60 * 60

-- The seconds that the configuration asks for: eight hours where it has no such setting.
abbrev pub ttl_seconds : Dict String → ℕ
ttl_seconds config =
    let setting = get_or "" "ACCOUNT_SESSION_TTL_SECONDS" config in
    if setting == "" then 8 * 60 * 60 else lasting (atoi setting)

lasting-positive : (o : Option ℤ) → 1 ≤ lasting o
lasting-positive none = omega arith
lasting-positive (some (pos zero)) = omega arith
lasting-positive (some (pos (suc n))) = omega arith
lasting-positive (some (negsuc n)) = omega arith

ttl_seconds-positive : (config : Dict String) → 1 ≤ ttl_seconds config
ttl_seconds-positive config =
    let setting = get_or "" "ACCOUNT_SESSION_TTL_SECONDS" config in
    if_cases (λ n. 1 ≤ n) (setting == "") (8 * 60 * 60) (lasting (atoi setting)) (λ _. omega arith)
      λ _. lasting-positive (atoi setting)

-- The code's default and the test of the sign come to the same seconds.
seconds_or_default-lasting : (o : Option ℤ) → seconds_or_default o ≡ pos (lasting o)
seconds_or_default-lasting none = refl
seconds_or_default-lasting (some (pos zero)) = refl
seconds_or_default-lasting (some (pos (suc n))) =
    if_cases (λ z. z ≡ pos (suc n)) (ltb_ℤ (pos 0) (pos (suc n))) (pos (suc n)) (pos 28800)
      (λ _. refl) λ e. ground (arith, e)
seconds_or_default-lasting (some (negsuc n)) =
    if_cases (λ z. z ≡ pos 28800) (ltb_ℤ (pos 0) (negsuc n)) (negsuc n) (pos 28800)
      (λ e. ground (arith, e)) λ _. refl

seconds_or_default-ttl_seconds :
    (config : Dict String) → seconds_or_default (atoi (raw_ttl config)) ≡ pos (ttl_seconds config)
unfolding atoi read_digits is_digit
seconds_or_default-ttl_seconds config = go (setting == "")
  where
    setting : String
    setting = get_or "" "ACCOUNT_SESSION_TTL_SECONDS" config

    go :
        (b : Bool)
        → seconds_or_default (atoi (if b then "28800" else setting))
          ≡ pos (if b then 8 * 60 * 60 else lasting (atoi setting))
    go true = refl
    go false = seconds_or_default-lasting (atoi setting)

nanoseconds : (n : ℕ) → wrap_64 (pos n *ℤ pos 1000000000) ≡ wrap_64 (pos (n * 1000000000))
unfolding ◌*ℤ◌
nanoseconds n = ap wrap_64 (ground arith)

ttl_in_range : (n : ℕ) → n ≤ 9223372036 → wrap_64 (pos (n * 1000000000)) ≡ pos (n * 1000000000)
unfolding wrap_64
ttl_in_range n h = ground (arith, h)

ttl_too_long :
    (n : ℕ)
    → 9223372037 ≤ n
    → n ≤ 18446744073
    → wrap_64 (pos (n * 1000000000)) ≡ negsuc (2 ^ 64 - n * 1000000000 - 1)
unfolding wrap_64
ttl_too_long n low high = ground (arith, low, high)

in_nanoseconds :
    (config : Dict String)
    → read_session_ttl config ≡ wrap_64 (pos (ttl_seconds config * 1000000000))
unfolding read_session_ttl
in_nanoseconds config =
    ap (λ z. wrap_64 (z *ℤ pos 1000000000)) (seconds_or_default-ttl_seconds config)
    ∙ nanoseconds (ttl_seconds config)

-- Where the configured seconds, or the 28800, eight hours, that stand for a setting that is
-- missing or no positive number, are at most 9223372036, readSessionTTL returns as many seconds in
-- nanoseconds, which is positive.
pub read_session_ttl-in_range :
    (config : Dict String)
    → ttl_seconds config ≤ 9223372036
    → (read_session_ttl config ≡ pos (ttl_seconds config * 1000000000))
      × (ltb_ℤ (pos 0) (read_session_ttl config) ≡ true)
unfolding read_session_ttl
read_session_ttl-in_range config h =
    let value = in_nanoseconds config ∙ ttl_in_range (ttl_seconds config) h in
    (value, ap (ltb_ℤ (pos 0)) value ∙ ground (arith, ttl_seconds-positive config))

-- Where the configured seconds are from 9223372037 to 18446744073, the life of a session that
-- readSessionTTL returns has wrapped around to a negative number.
pub read_session_ttl-overflow :
    (config : Dict String)
    → 9223372037 ≤ ttl_seconds config
    → ttl_seconds config ≤ 18446744073
    → read_session_ttl config ≡ negsuc (2 ^ 64 - ttl_seconds config * 1000000000 - 1)
unfolding read_session_ttl
read_session_ttl-overflow config low high =
    in_nanoseconds config ∙ ttl_too_long (ttl_seconds config) low high
