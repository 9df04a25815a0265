-- ===== src/Selftest/Frame.antt =====
-- A self-test keeps what the handlers that it calls keep of the plugin's accounts.
use omps_admin_plugin_accoun.Prelude.{ℕ, zero, suc, String, List, [], ◌∷◌}
use omps_admin_plugin_accoun.Prelude.Int.{ℤ}
use omps_admin_plugin_accoun.Prelude.Dict.{Dict}
use omps_admin_plugin_accoun.Account.{AccountRecord}
use omps_admin_plugin_accoun.Json.{Json}
use omps_admin_plugin_accoun.Platform.{Request, Env}
use omps_admin_plugin_accoun.Platform.Keeps.{Keeps, OnAccounts, keeps_rules, Keeps-bind}
use omps_admin_plugin_accoun.Session.Frame.{create_session-Keeps}
use omps_admin_plugin_accoun.Selftest.Template.{
  TemplateVars, Placeholder, Token, literal, placeholder, rand_hex, build_template_vars,
  selftest_session_token, resolve_template_name, resolve_cached, apply_tokens, apply_template_vars,
}
use omps_admin_plugin_accoun.Selftest.Harness.{
  Handler, SelftestCase, Harness, search_patterns, lookup_route_fuel,
}
use omps_admin_plugin_accoun.Selftest.Compare.{
  resolve_template_any, check_fields, check_object, check_contents, compare_response,
}
use omps_admin_plugin_accoun.Selftest.Run.{set_headers}

module _ {ι} (env : Env) (R : Dict AccountRecord → Type ι) where
  rand_hex-Keeps : (n : ℕ) → Keeps (OnAccounts R) (rand_hex env n)
  unfolding rand_hex
  rand_hex-Keeps n = search keeps_rules

  pub build_template_vars-Keeps : Keeps (OnAccounts R) (build_template_vars env)
  unfolding build_template_vars
  build_template_vars-Keeps = search (keeps_rules, rand_hex-Keeps)

  selftest_session_token-Keeps :
      (id : String) → Keeps (OnAccounts R) (selftest_session_token env id)
  unfolding selftest_session_token
  selftest_session_token-Keeps id = search (keeps_rules, create_session-Keeps)

  resolve_template_name-Keeps :
      (p : Placeholder) (v : TemplateVars) → Keeps (OnAccounts R) (resolve_template_name env p v)
  unfolding resolve_template_name
  resolve_template_name-Keeps p v =
      search (keeps_rules, selftest_session_token-Keeps, rand_hex-Keeps) depth 14

  resolve_cached-Keeps :
      (p : Placeholder) (v : TemplateVars) → Keeps (OnAccounts R) (resolve_cached env p v)
  unfolding resolve_cached
  resolve_cached-Keeps p v = search (keeps_rules, resolve_template_name-Keeps)

  apply_tokens-Keeps :
      (ts : List Token) (v : TemplateVars) → Keeps (OnAccounts R) (apply_tokens env ts v)
  unfolding apply_tokens
  apply_tokens-Keeps [] v = search keeps_rules
  apply_tokens-Keeps (literal c ∷ ts) v =
      Keeps-bind _ _ (apply_tokens-Keeps ts v) λ rest. search keeps_rules
  apply_tokens-Keeps (placeholder p ∷ ts) v =
      Keeps-bind _ _ (resolve_cached-Keeps p v)
        λ value. Keeps-bind _ _ (apply_tokens-Keeps ts value.1) λ rest. search keeps_rules

  pub apply_template_vars-Keeps :
      (s : String) (v : TemplateVars) → Keeps (OnAccounts R) (apply_template_vars env s v)
  unfolding apply_template_vars
  apply_template_vars-Keeps s v = search (keeps_rules, apply_tokens-Keeps)

  module _ (h : Harness env) where
    pub lookup_route_fuel-Keeps :
        (n : ℕ) (routes : Dict (Handler env)) (method path : String)
        → Keeps (OnAccounts R) (lookup_route_fuel n h routes method path)
    unfolding lookup_route_fuel search_patterns
    lookup_route_fuel-Keeps zero routes method path = search keeps_rules
    lookup_route_fuel-Keeps (suc n) routes method path =
        search (keeps_rules, lookup_route_fuel-Keeps n) depth 12

    resolve_template_any-Keeps :
        (value : Json) (v : TemplateVars) → Keeps (OnAccounts R) (resolve_template_any h value v)
    unfolding resolve_template_any
    resolve_template_any-Keeps (Json.str s) v = search (keeps_rules, apply_template_vars-Keeps)
    resolve_template_any-Keeps Json.null v = search keeps_rules
    resolve_template_any-Keeps (Json.bool b) v = search keeps_rules
    resolve_template_any-Keeps (Json.num n) v = search keeps_rules
    resolve_template_any-Keeps (Json.arr items) v = search keeps_rules
    resolve_template_any-Keeps (Json.obj fields) v = search keeps_rules

    check_fields-Keeps :
        (object : Json) (expects : Dict Json) (v : TemplateVars)
        → Keeps (OnAccounts R) (check_fields h object expects v)
    unfolding check_fields
    check_fields-Keeps object [] v = search keeps_rules
    check_fields-Keeps object (expect ∷ expects) v =
        Keeps-bind _ _ (resolve_template_any-Keeps expect.1 v)
          λ resolved. search (keeps_rules, check_fields-Keeps object expects)

    check_object-Keeps :
        (c : SelftestCase) (body : String) (v : TemplateVars)
        → Keeps (OnAccounts R) (check_object h c body v)
    unfolding check_object
    check_object-Keeps c body v = search (keeps_rules, check_fields-Keeps) depth 12

    check_contents-Keeps :
        (c : SelftestCase) (body : String) (v : TemplateVars)
        → Keeps (OnAccounts R) (check_contents h c body v)
    unfolding check_contents
    check_contents-Keeps c body v =
        search (keeps_rules, apply_template_vars-Keeps, check_object-Keeps) depth 12

    pub compare_response-Keeps :
        (c : SelftestCase) (code : ℤ) (body : String) (v : TemplateVars)
        → Keeps (OnAccounts R) (compare_response h c code body v)
    unfolding compare_response
    compare_response-Keeps c code body v = search (keeps_rules, check_contents-Keeps) depth 12

    pub set_headers-Keeps :
        (routes : Dict (Handler env)) (headers : Dict String) (r : Request) (v : TemplateVars)
        → Keeps (OnAccounts R) (set_headers h routes headers r v)
    unfolding set_headers
    set_headers-Keeps routes [] r v = search keeps_rules
    set_headers-Keeps routes (header ∷ headers) r v =
        Keeps-bind _ _ (apply_template_vars-Keeps header.1 v)
          λ value. set_headers-Keeps routes headers _ value.1
