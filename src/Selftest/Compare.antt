-- ===== src/Selftest/Compare.antt =====
-- The comparison of a response with what a case expects: `jsonGet`, `valuesEqual` and
-- `resolveTemplateAny` of selftest.go, and the end of `runSingleCase`.
use Prim.Native.Char.{Char, code}
use mathlib.Core.Bool.{not}
use omps_admin_plugin_accoun.Prelude.{
  String, Bool, ◌&&◌, List, [], ◌∷◌, ◌==◌, is_empty, eqb, if◌then◌else◌,
}
use omps_admin_plugin_accoun.Prelude.Int.{ℤ, eqb_ℤ}
use omps_admin_plugin_accoun.Prelude.Text.{contains_text}
use omps_admin_plugin_accoun.Prelude.Dict.{Dict}
use omps_admin_plugin_accoun.Prelude.Exec.{Exec, pure, ◌>>=◌, on_none}
use omps_admin_plugin_accoun.Account.{on_error}
use omps_admin_plugin_accoun.Json.{Json, null, str, obj, Fields, end, field, fields_of}
use omps_admin_plugin_accoun.Platform.{Env, World, call}
use omps_admin_plugin_accoun.Selftest.Template.{TemplateVars, apply_template_vars}
use omps_admin_plugin_accoun.Selftest.Harness.{SelftestCase, Harness}

abbrev pub put_char : Char → List String → List String
put_char c [] = String.◌∷◌ c "" ∷ []
put_char c (part ∷ parts) = String.◌∷◌ c part ∷ parts

-- `strings.Split(s, ".")`
unfoldable pub split_dots : String → List String
split_dots String.[] = "" ∷ []
split_dots (String.◌∷◌ c s) =
    let parts = split_dots s in if eqb (code c) b'.' then "" ∷ parts else put_char c parts

-- `m[p]`, null for a missing key.
unfoldable pub get_field : String → Fields → Json
get_field p end = null
get_field p (field name value fields) =
    let later = get_field p fields in if name == p then value else later

abbrev pub descend : Json → String → Json
descend (obj fields) p = get_field p fields
descend _ p = null

-- What `m, ok := cur.(map[string]any)` asks.
abbrev pub is_object : Json → Bool
is_object (obj fields) = Bool.true
is_object _ = Bool.false

-- The loop of `jsonGet` along the path.
unfoldable pub get_path : List String → Json → Json
get_path [] cur = cur
get_path (p ∷ ps) cur =
    let deeper = get_path ps (descend cur p) in if is_object cur then deeper else null

unfoldable pub json_get : Json → String → Json
json_get value path = get_path (split_dots path) value

-- How a response compares with what was expected; `wrong_field` has the key, the expected value and
-- the one that was found.
pub data Verdict : Type 0 where
  matched : Verdict
  wrong_status : ℤ → ℤ → Verdict
  lacks : String → Verdict
  not_json : Verdict
  wrong_field : String → Json → Json → Verdict

module _ {env : Env} (h : Harness env) where
  unfoldable pub values_equal : Json → Json → Bool
  values_equal a b = h.sprint a == h.sprint b

  unfoldable pub resolve_template_any : Json → TemplateVars → Exec (World env) (Json × TemplateVars)
  resolve_template_any (str s) v = do
    applied ← apply_template_vars env s v
    pure (str applied.0, applied.1)
  resolve_template_any value v = pure (value, v)

  -- The loop over the expected fields.
  unfoldable pub check_fields : Json → Dict Json → TemplateVars → Exec (World env) Verdict
  check_fields object [] v = pure matched
  check_fields object (expect ∷ expects) v = do
    resolved ← resolve_template_any expect.1 v
    if values_equal resolved.0 (json_get object expect.0)
        then check_fields object expects resolved.1
        else pure (wrong_field expect.0 resolved.0 (json_get object expect.0))

  unfoldable pub check_object : SelftestCase → String → TemplateVars → Exec (World env) Verdict
  check_object c body v =
      if is_empty c.expect_field
      then pure matched
      else on_error (h.unmarshal_object body) (λ e. pure not_json)
          λ object. do
            expects ← call (h.range_fields c.expect_field)
            check_fields (obj (fields_of object)) expects v

  unfoldable pub check_contents : SelftestCase → String → TemplateVars → Exec (World env) Verdict
  check_contents c body v = do
    expected ← apply_template_vars env c.expect_contains v
    if not (expected.0 == "") && not (contains_text body expected.0)
        then pure (lacks expected.0)
        else check_object c body expected.1

  -- The status first, then the text, then the fields.
  unfoldable pub compare_response :
      SelftestCase → ℤ → String → TemplateVars → Exec (World env) Verdict
  compare_response c code body v = on_none c.expect_status (check_contents c body v) λ expected.
      if eqb_ℤ code expected then check_contents c body v else pure (wrong_status expected code)
