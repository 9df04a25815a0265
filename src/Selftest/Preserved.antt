-- ===== src/Selftest/Preserved.antt =====
-- `handleSelftestInternal` over routes whose handlers all keep a property of the plugin's accounts.
use mathlib.Core.List.{Memᴰ}
use mathlib.Core.Option.{none-ne-some, some-injective}
use omps_admin_plugin_accoun.Prelude.{
  ℕ, suc, String, ◌≡◌, sym, ap, some, List, [], ◌∷◌, ◌==◌, if_cases,
}
use omps_admin_plugin_accoun.Prelude.Dict.{Dict, lookup}
use omps_admin_plugin_accoun.Account.{AccountRecord}
use omps_admin_plugin_accoun.Platform.{Request, Env}
use omps_admin_plugin_accoun.Platform.Keeps.{
  Keeps, OnAccounts, keeps_rules, Keeps-bind, Keeps-pure, Keeps-on_none,
}
use omps_admin_plugin_accoun.Platform.Ends.{Ends, Ends-pure, Ends-bind, Ends-on_none}
use omps_admin_plugin_accoun.Selftest.Template.{
  TemplateVars, build_template_vars, apply_template_vars,
}
use omps_admin_plugin_accoun.Selftest.Harness.{
  Handler, SelftestCase, DirEntry, Harness, lookup_route_handler,
}
use omps_admin_plugin_accoun.Selftest.RouteLookup.{
  RangesRoutes, IsRouteOf, exactly, any_method, same_shape, before, lookup_route_handler-IsRouteOf,
}
use omps_admin_plugin_accoun.Selftest.Frame.{
  build_template_vars-Keeps, apply_template_vars-Keeps, lookup_route_fuel-Keeps,
  compare_response-Keeps, set_headers-Keeps,
}
use omps_admin_plugin_accoun.Selftest.Run.{
  Tally, target_of, run_request, run_routed, run_http, run_single_case, run_cases, run_file,
  run_files, run_all_selftests,
}
use omps_admin_plugin_accoun.Selftest.Endpoint.{handle_selftest_internal}

-- What a look-up finds is an entry.
lookup-Mem :
    {V : Type 0} (m : Dict V) (key : String) (v : V)
    → lookup key m ≡ some v
    → (name : String) × Memᴰ (name, v) m
unfolding lookup
lookup-Mem [] key v h = elim (none-ne-some v h) [ ]
lookup-Mem {V} ((name, u) ∷ m) key v h =
    if_cases (λ o. o ≡ some v → (name' : String) × Memᴰ (name', v) ((name, u) ∷ m)) (name == key)
      (some u) (lookup key m)
      (λ _ e. (name, Memᴰ.head (ap (λ v. (name, v)) (sym (some-injective u v e)))))
      (λ _ e. let (name', member) = lookup-Mem m key v e in (name', Memᴰ.tail member)) h

module _ {ι} (env : Env) (R : Dict AccountRecord → Type ι) where
  -- The handler keeps the property, whatever the request and its body.
  pub record HandlerKeeps (f : Handler env) : Type ι where
    pub kept : (r : Request) (body : String) → Keeps (OnAccounts R) (f r body)

  module _ (h : Harness env) (routes : Dict (Handler env)) (ranges : RangesRoutes h)
      (all : (name : String) (f : Handler env) → Memᴰ (name, f) routes → HandlerKeeps f) where
    route-HandlerKeeps :
        (method path : String) (f : Handler env) → IsRouteOf routes method path f → HandlerKeeps f
    route-HandlerKeeps method path f (exactly e) =
        let (name, member) = lookup-Mem routes _ f e in all name f member
    route-HandlerKeeps method path f (any_method e) =
        let (name, member) = lookup-Mem routes _ f e in all name f member
    route-HandlerKeeps method path f (same_shape {pattern = pattern} member _) =
        all pattern f member
    route-HandlerKeeps method path f (before {target = target} _ route) =
        route-HandlerKeeps method target f route

    run_request-Keeps :
        (c : SelftestCase) (method path body : String) (f : Handler env) (r : Request)
        (v : TemplateVars)
        → HandlerKeeps f
        → Keeps (OnAccounts R) (run_request h routes c method path body f r v)
    unfolding run_request
    run_request-Keeps c method path body f r v k =
        let handled = k.kept in
        search (keeps_rules, handled, set_headers-Keeps, compare_response-Keeps) depth 14

    run_routed-Keeps :
        (c : SelftestCase) (method path : String) (f : Handler env) (v : TemplateVars)
        → HandlerKeeps f
        → Keeps (OnAccounts R) (run_routed h routes c method path f v)
    unfolding run_routed
    run_routed-Keeps c method path f v k =
        let run = λ (body : String) (r : Request) (v : TemplateVars).
          run_request-Keeps c method path body f r v k in
        search (keeps_rules, apply_template_vars-Keeps, run) depth 12

    run_http-Keeps :
        (api : String) (c : SelftestCase) → Keeps (OnAccounts R) (run_http h routes api c)
    unfolding run_http
    run_http-Keeps api c = record {
      at = λ w kept.
          let target = target_of h routes api c in
          let vars = build_template_vars env w in
          let path = apply_template_vars env target.1 vars.0 vars.1 in
          let route = lookup_route_handler h routes target.0 path.0.0 path.1 in
          let kept1 = (build_template_vars-Keeps env R).at w kept in
          let kept2 = (apply_template_vars-Keeps env R target.1 vars.0).at vars.1 kept1 in
          let kept3 =
            (lookup_route_fuel-Keeps env R h 2 routes target.0 path.0.0).at path.1 kept2 in
          let go : Ends (λ _ after. R after.accounts) (run_http h routes api c) w =
            (Ends-bind (build_template_vars env) _ (
              Ends-bind (apply_template_vars env target.1 vars.0) _ (
                Ends-bind (lookup_route_handler h routes target.0 path.0.0) _ (
                  Ends-on_none route.0 _ _ (λ _. Ends-pure _ kept3)
                    λ f found. record {
                      at =
                          (run_routed-Keeps c target.0 path.0.0 f path.0.1 (
                              route-HandlerKeeps target.0 path.0.0 f (
                                lookup_route_handler-IsRouteOf h routes target.0 path.0.0 f path.1
                                  ranges found))).at
                            route.1 kept3;
                    })))) in
          go.at;
    }

    run_single_case-Keeps :
        (api file : String) (i : ℕ) (c : SelftestCase)
        → Keeps (OnAccounts R) (run_single_case h routes api file i c)
    unfolding run_single_case
    run_single_case-Keeps api file i c = search (keeps_rules, run_http-Keeps)

    run_cases-Keeps :
        (api file : String) (i : ℕ) (cs : List SelftestCase) (t : Tally)
        → Keeps (OnAccounts R) (run_cases h routes api file i cs t)
    unfolding run_cases
    run_cases-Keeps api file i [] t = search keeps_rules
    run_cases-Keeps api file i (c ∷ cs) t =
        Keeps-bind _ _ (run_single_case-Keeps api file i c) λ result.
          Keeps-on_none result _ _ (Keeps-pure _) λ r. run_cases-Keeps api file (suc i) cs _

    run_file-Keeps : (f : DirEntry) (t : Tally) → Keeps (OnAccounts R) (run_file h routes f t)
    unfolding run_file
    run_file-Keeps f t = search (keeps_rules, run_cases-Keeps) depth 12

    run_files-Keeps :
        (fs : List DirEntry) (t : Tally) → Keeps (OnAccounts R) (run_files h routes fs t)
    unfolding run_files
    run_files-Keeps [] t = search keeps_rules
    run_files-Keeps (f ∷ fs) t =
        Keeps-bind _ _ (run_file-Keeps f t)
          λ tallied. Keeps-on_none tallied _ _ (Keeps-pure _) λ t'. run_files-Keeps fs t'

    pub handle_selftest_internal-Keeps :
        (r : Request) → Keeps (OnAccounts R) (handle_selftest_internal h routes r)
    unfolding handle_selftest_internal run_all_selftests
    handle_selftest_internal-Keeps r = search (keeps_rules, run_files-Keeps) depth 12
