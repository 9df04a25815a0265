-- ===== src/Selftest/RouteLookup.antt =====
-- The route look-up of selftest.go: its one call of itself is the last, and what it finds is a route.
-- Also the mark that a case's request gets.
use mathlib.Core.List.{Memᴰ}
use mathlib.Core.Option.{none-ne-some, some-injective}
use omps_admin_plugin_accoun.Prelude.{
  ℕ, zero, suc, String, ◌<>◌, ◌≡◌, refl, sym, ap, subst, ◌∙◌, Bool, true, false, not, ◌&&◌, Option,
  none, some, [], ◌∷◌, arith, ◌==◌, eq_iff, eqb, code, if◌then◌else◌, if_cases, Option-cases, inl,
  inr,
}
use omps_admin_plugin_accoun.Prelude.Dict.{
  Dict, lookup, insert, erase, get_or, lookup-insert, lookup-erase,
}
use omps_admin_plugin_accoun.Prelude.Exec.{Exec, pure, ◌>>=◌, on_some, on_some-none}
use omps_admin_plugin_accoun.Platform.{Request, Env, World, call}
use omps_admin_plugin_accoun.Platform.Ends.{Ends, Ends-pure, Ends-on_some}
use omps_admin_plugin_accoun.Internal.{is_authenticated}
use omps_admin_plugin_accoun.Selftest.Harness.{
  Handler, Harness, strip_path_placeholders, before_query, find_pattern, search_patterns,
  lookup_route_fuel, lookup_route_handler, mark_selftest_request,
}

-- What stands before the first `?` has none.
before_query-none : (s t : String) → before_query s ≡ some t → before_query t ≡ none
unfolding before_query on_some
before_query-none String.[] t h = elim (none-ne-some t h) [ ]
before_query-none (String.◌∷◌ c s) t h =
    if_cases (λ o. o ≡ some t → before_query t ≡ none) (eqb (code c) b'?') (some "")
      (on_some (before_query s) (λ t. some (String.◌∷◌ c t)) none)
      (λ e g. subst (λ t. before_query t ≡ none) (some-injective "" t g) refl)
      (λ e g. elim (Option-cases (before_query s)) [
        | inl e' ↦ elim (none-ne-some t (sym (on_some-none (before_query s) _ _ e') ∙ g)) [ ]
        | inr (u, e') ↦
            let shown = sym (ap (λ o. on_some o (λ t. some (String.◌∷◌ c t)) none) e') ∙ g in
            let later = before_query-none s u e' in
            subst (λ t. before_query t ≡ none) (some-injective _ t shown) (ground (arith, e, later))
      ])
      h

module _ {env : Env} (h : Harness env) (routes : Dict (Handler env)) (method : String) where
  -- The look-ups of the path itself come first.
  abbrev unless_known :
      String → Exec (World env) (Option (Handler env)) → Exec (World env) (Option (Handler env))
  unless_known path m =
      on_some (lookup (method <> " " <> path) routes) (λ handler. pure (some handler))
        (on_some (lookup path routes) (λ handler. pure (some handler)) m)

  without_query :
      (m n : ℕ) (path : String)
      → before_query path ≡ none
      → lookup_route_fuel (suc m) h routes method path
        ≡ lookup_route_fuel (suc n) h routes method path
  unfolding lookup_route_fuel
  without_query m n path e =
      ap (unless_known path)
        (on_some-none (before_query path) _ _ e ∙ sym (on_some-none (before_query path) _ _ e))

  -- lookupRouteHandler calls itself at most once: with any more fuel than two calls need it does
  -- the same.
  pub lookup_route_handler-settled :
      (n : ℕ) (path : String)
      → lookup_route_fuel (suc (suc n)) h routes method path
        ≡ lookup_route_handler h routes method path
  unfolding lookup_route_fuel on_some
  lookup_route_handler-settled n path = elim (Option-cases (before_query path)) [
    | inl e ↦ without_query (suc n) 1 path e
    | inr (target, e) ↦ ap (unless_known path) (
        to_target (suc n) target e
        ∙ without_query n 0 target (before_query-none path target e)
        ∙ sym (to_target 1 target e))
  ]
    where
      to_target :
          (k : ℕ) (target : String)
          → before_query path ≡ some target
          → on_some
              (before_query path)
              (λ t. lookup_route_fuel k h routes method t)
              (search_patterns h routes method path)
            ≡ lookup_route_fuel k h routes method target
      to_target k target e =
          ap
            (λ o.
              on_some o (λ t. lookup_route_fuel k h routes method t)
                (search_patterns h routes method path))
            e

-- Ranging over the routes comes by routes alone.
abbrev pub RangesRoutes : {env : Env} → Harness env → Type 0
RangesRoutes {env} h =
    (routes : Dict (Handler env)) (o : env.Outside) (route : String × Handler env)
    → Memᴰ route (h.range_routes routes o).0
    → Memᴰ route routes

module _ {env : Env} (routes : Dict (Handler env)) (method : String) where
  -- The grounds on which a handler serves a path.
  pub data IsRouteOf : String → Handler env → Type 0 where
    exactly :
        {path : String} {f : Handler env}
        → lookup (method <> " " <> path) routes ≡ some f
        → IsRouteOf path f
    any_method : {path : String} {f : Handler env} → lookup path routes ≡ some f → IsRouteOf path f
    same_shape :
        {path pattern : String} {f : Handler env}
        → Memᴰ (pattern, f) routes
        → strip_path_placeholders pattern ≡ strip_path_placeholders (method <> " " <> path)
        → IsRouteOf path f
    before :
        {path target : String} {f : Handler env}
        → before_query path ≡ some target
        → IsRouteOf target f
        → IsRouteOf path f

find_pattern-Mem :
    {env : Env} (wanted : String) (routes : Dict (Handler env)) (f : Handler env)
    → find_pattern wanted routes ≡ some f
    → (pattern : String) × Memᴰ (pattern, f) routes × (strip_path_placeholders pattern ≡ wanted)
unfolding find_pattern
find_pattern-Mem wanted [] f e = elim (none-ne-some f e) [ ]
find_pattern-Mem {env} wanted ((pattern, g) ∷ routes) f e =
    if_cases
      (λ o.
        o ≡ some f
        → (p : String) × Memᴰ (p, f) ((pattern, g) ∷ routes) × (strip_path_placeholders p ≡ wanted))
      (strip_path_placeholders pattern == wanted) (some g) (find_pattern wanted routes)
      (λ t found. (
        pattern,
        subst (λ f. Memᴰ (pattern, f) ((pattern, g) ∷ routes)) (some-injective g f found)
            (Memᴰ.head refl),
        (eq_iff _ _).0 t,
      ))
      (λ t found.
        let (p, member, shape) = find_pattern-Mem wanted routes f found in
        (p, Memᴰ.tail member, shape))
      e

module _ {env : Env} (h : Harness env) (routes : Dict (Handler env)) (method : String) where
  search_patterns-IsRouteOf :
      (path : String) (f : Handler env) (w : World env)
      → RangesRoutes h
      → (search_patterns h routes method path w).0 ≡ some f
      → IsRouteOf routes method path f
  unfolding search_patterns call ◌>>=◌ pure
  search_patterns-IsRouteOf path f w ranges e =
      let (pattern, member, shape) = find_pattern-Mem _ _ f e in
      same_shape (ranges routes w.outside (pattern, f) member) shape

  lookup_route_fuel-IsRouteOf :
      (n : ℕ) (path : String) (f : Handler env) (w : World env)
      → RangesRoutes h
      → (lookup_route_fuel n h routes method path w).0 ≡ some f
      → IsRouteOf routes method path f
  unfolding lookup_route_fuel pure
  lookup_route_fuel-IsRouteOf zero path f w ranges e = elim (none-ne-some f e) [ ]
  lookup_route_fuel-IsRouteOf (suc n) path f w ranges e =
      let go : Ends (λ o _. o ≡ some f → IsRouteOf routes method path f)
          (lookup_route_fuel (suc n) h routes method path) w =
        (Ends-on_some (lookup (method <> " " <> path) routes) _ _
          (λ g found. Ends-pure _ λ same. exactly (found ∙ same))
          λ _.
            Ends-on_some (lookup path routes) _ _
              (λ g found. Ends-pure _ λ same. any_method (found ∙ same))
              λ _.
                Ends-on_some (before_query path) _ _
                  (λ target cut. record {
                    at = λ same. before cut (lookup_route_fuel-IsRouteOf n target f w ranges same);
                  })
                  λ _. record { at = search_patterns-IsRouteOf path f w ranges }) in
      go.at e

  -- If ranging over the routes comes by routes alone, a handler that lookupRouteHandler finds
  -- stands in the table under the method and the path, under the path alone, or under a pattern
  -- that is the same without its placeholders, for the path as given or cut at its query.
  pub lookup_route_handler-IsRouteOf :
      (path : String) (f : Handler env) (w : World env)
      → RangesRoutes h
      → (lookup_route_handler h routes method path w).0 ≡ some f
      → IsRouteOf routes method path f
  lookup_route_handler-IsRouteOf = lookup_route_fuel-IsRouteOf 2

abbrev mark : String
mark = "X-Internal-Authenticated"

or_empty : Option String → String
or_empty o = elim o [ none ↦ "" | some v ↦ v ]

get_or-erase :
    (headers : Dict String)
    → (get_or "" "X-Internal-Token" (erase mark headers) ≡ get_or "" "X-Internal-Token" headers)
      × (get_or "" mark (erase mark headers) ≡ "")
unfolding get_or or_empty
get_or-erase headers = (
  ap or_empty (lookup-erase mark "X-Internal-Token" headers),
  ap or_empty (lookup-erase mark mark headers),
)

is_marked :
    (headers : Dict String) (b : Bool)
    → get_or "" mark headers ≡ ""
    → get_or "" mark (if b then insert mark "true" headers else headers) == "true" ≡ b
unfolding get_or or_empty
is_marked headers true h = ap (λ o. or_empty o == "true") (lookup-insert mark mark "true" headers)
is_marked headers false h = ap (λ s. s == "true") h

-- A request of a case counts as authenticated exactly if its internal token is not empty and is
-- the runtime's: a mark that the case sets itself is dropped.
pub is_authenticated-mark_selftest_request :
    (env : Env) (r : Request)
    → is_authenticated (mark_selftest_request env r) ≡ (
        not (get_or "" "X-Internal-Token" r.headers == "")
        && get_or "" "X-Internal-Token" r.headers == env.getenv "RUNTIME_INTERNAL_TOKEN")
unfolding is_authenticated mark_selftest_request
is_authenticated-mark_selftest_request env r =
    let (token, erased) = get_or-erase r.headers in
    is_marked (erase mark r.headers) _ erased
    ∙ ap (λ t. not (t == "") && t == env.getenv "RUNTIME_INTERNAL_TOKEN") token
