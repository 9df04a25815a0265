-- ===== src/Validation.antt =====
-- The checks of request values: `validAccount` to `validListFilters` of account_handlers.go,
-- `normalizeStatus` of account_storage.go and `parsePage` of account_validation.go.
pub mod RecordId
use Prim.Native.String.{len, [], ◌∷◌}
use omps_admin_plugin_accoun.Prelude.{
  ℕ, zero, suc, String, Bool, true, false, ◌&&◌, ◌||◌, Option, none, some, code, ◌==◌, leb, eqb,
  if◌then◌else◌,
}
use omps_admin_plugin_accoun.Prelude.Int.{ℤ, pos, ltb_ℤ}
use omps_admin_plugin_accoun.Prelude.Text.{
  trim_space, all_codes, is_digit, is_lower_letter, is_upper_letter, is_hex_digit, atoi,
}
use omps_admin_plugin_accoun.Prelude.Dict.{get_or}
use omps_admin_plugin_accoun.Platform.{Request}

unfoldable pub valid_account : String → Bool
valid_account account = leb 4 (len account) && leb (len account) 32

unfoldable pub valid_password : String → Bool
valid_password password = leb 6 (len password) && leb (len password) 32

-- The tail of `uuidRE`: a group of hex digits of the given length, a dash, then the rest.
abbrev pub hex_group : ℕ → (String → Bool) → String → Bool
hex_group zero rest s = rest s
hex_group (suc n) rest [] = false
hex_group (suc n) rest (c ∷ s) = is_hex_digit (code c) && hex_group n rest s

abbrev pub dash : (String → Bool) → String → Bool
dash rest [] = false
dash rest (c ∷ s) = eqb (code c) b'-' && rest s

abbrev pub at_end : String → Bool
at_end [] = true
at_end (c ∷ s) = false

-- `uuidRE`: groups of 8, 4, 4, 4 and 12 hex digits.
unfoldable pub matches_uuid : String → Bool
matches_uuid =
    hex_group 8
      (dash (hex_group 4 (dash (hex_group 4 (dash (hex_group 4 (dash (hex_group 12 at_end))))))))

unfoldable pub is_record_id_char : ℕ → Bool
unfolding is_digit is_lower_letter is_upper_letter
is_record_id_char c =
    is_upper_letter c || is_lower_letter c || is_digit c || eqb c b'_' || eqb c b'-'

-- `recordIDRE`: 8 to 64 letters, digits, `_` and `-`, which are bytes.
unfoldable pub matches_record_id : String → Bool
unfolding is_record_id_char
matches_record_id s = all_codes is_record_id_char s && leb 8 (len s) && leb (len s) 64

unfoldable pub is_permission_char : ℕ → Bool
unfolding is_digit is_lower_letter
is_permission_char c = is_lower_letter c || is_digit c || eqb c b'.' || eqb c b'_' || eqb c b'-'

unfoldable pub valid_uuid : String → Bool
valid_uuid id = matches_uuid (trim_space id)

unfoldable pub valid_record_id : String → Bool
valid_record_id id = let id' = trim_space id in valid_uuid id' || matches_record_id id'

-- `permissionCodeRE`: 3 to 80 of `a-z`, `0-9`, `.`, `_` and `-`.
unfoldable pub valid_permission_code : String → Bool
unfolding is_permission_char
valid_permission_code s = all_codes is_permission_char s && leb 3 (len s) && leb (len s) 80

unfoldable pub valid_list_filters : String → String → Bool
valid_list_filters status keyword =
    (status == "" || status == "enabled" || status == "disabled") && leb (len keyword) 32

unfoldable pub normalize_status : String → String
normalize_status status =
    let s = trim_space status in if s == "enabled" || s == "disabled" then s else ""

abbrev pub check_page : Option ℤ → Option ℤ → Option (ℤ × ℤ)
check_page (some page) (some page_size) =
    if ltb_ℤ page (pos 1) || ltb_ℤ page_size (pos 1) || ltb_ℤ (pos 100) page_size
    then none
    else some (page, page_size)
check_page _ _ = none

-- `parsePage`: `none` is `(0, 0, false)`.
unfoldable pub parse_page : Request → Option (ℤ × ℤ)
parse_page r =
    let raw_page = get_or "" "page" r.query in
    let raw_page_size = get_or "" "page_size" r.query in
    if raw_page == "" || raw_page_size == ""
    then none
    else check_page (atoi raw_page) (atoi raw_page_size)
