-- ===== src/Selftest/Harness.antt =====
-- What selftest.go uses of `net/http`, `net/http/httptest`, `encoding/json` and `embed`, and its route
-- look-up: `markSelftestRuntimeInternalRequest` to `stripPathPlaceholders`.
use Prim.Native.Char.{code}
use mathlib.Core.Bool.{not}
use omps_admin_plugin_accoun.Prelude.{
  ℕ, zero, suc, String, ◌<>◌, Bool, ◌&&◌, Option, none, some, List, [], ◌∷◌, ◌==◌, eqb,
  if◌then◌else◌,
}
use omps_admin_plugin_accoun.Prelude.Int.{ℤ, pos, eqb_ℤ, ◌+ℤ◌, ◌-ℤ◌}
use omps_admin_plugin_accoun.Prelude.Dict.{Dict, lookup, insert, erase, get_or}
use omps_admin_plugin_accoun.Prelude.Exec.{Exec, pure, ◌>>=◌, on_some}
use omps_admin_plugin_accoun.Account.{Result}
use omps_admin_plugin_accoun.Json.{Json, Response}
use omps_admin_plugin_accoun.Platform.{Request, Env, World, call}

-- `http.HandlerFunc`: of a request and the bytes of its body.
abbrev pub Handler : Env → Type 0
Handler env = Request → String → Exec (World env) Response

-- `SelftestCase`, without the fields that the code does not read.
pub record SelftestCase : Type 0 where
  pub name : String
  pub kind : String
  pub method : String
  pub path : String
  pub headers : Dict String
  pub body : String
  pub expect_status : Option ℤ
  pub expect_field : Dict Json
  pub expect_contains : String

pub record SelftestFile : Type 0 where
  pub api : String
  pub cases : List SelftestCase

-- An entry of the directory `tests`.
pub record DirEntry : Type 0 where
  pub name : String
  pub is_dir : Bool

-- Go's library and the embedded files. `new_request` takes a method and a target and is `none` where it
-- panics; `recorded` is the code and the body that a recorder has of a response.
pub record Harness (env : Env) : Type 0 where
  pub read_dir : Result (List DirEntry)
  pub read_file : String → Result String
  pub unmarshal_file : String → Result SelftestFile
  pub unmarshal_object : String → Result (Dict Json)
  pub to_upper : String → String
  pub canonical_header : String → String
  pub new_request : String → String → Option Request
  pub recorded : Response → ℤ × String
  pub panic_text : String
  pub sprint : Json → String
  pub quote : String → String
  pub range_headers : Dict String → Exec env.Outside (Dict String)
  pub range_fields : Dict Json → Exec env.Outside (Dict Json)
  pub range_routes : Dict (Handler env) → Exec env.Outside (Dict (Handler env))

-- The loop of `stripPathPlaceholders`.
unfoldable pub strip_from : ℤ → String → String
strip_from depth String.[] = ""
strip_from depth (String.◌∷◌ c s) =
    let deeper = strip_from (depth +ℤ pos 1) s in
    let shallower = strip_from (depth -ℤ pos 1) s in
    let same = strip_from depth s in
    if eqb (code c) b'{'
    then deeper
    else if eqb (code c) b'}'
    then shallower
    else if eqb_ℤ depth (pos 0)
    then String.◌∷◌ c same
    else same

unfoldable pub strip_path_placeholders : String → String
strip_path_placeholders s = strip_from (pos 0) s

-- `path[:q]` for the first `?`, if there is one.
unfoldable pub before_query : String → Option String
before_query String.[] = none
before_query (String.◌∷◌ c s) =
    let more = before_query s in
    if eqb (code c) b'?' then some "" else on_some more (λ t. some (String.◌∷◌ c t)) none

module _ {env : Env} where
  -- The loop over the routes, for the first that is the same without its placeholders.
  unfoldable pub find_pattern : String → Dict (Handler env) → Option (Handler env)
  find_pattern wanted [] = none
  find_pattern wanted (route ∷ routes) =
      let later = find_pattern wanted routes in
      if strip_path_placeholders route.0 == wanted then some route.1 else later

  unfoldable pub search_patterns :
      Harness env → Dict (Handler env) → String → String → Exec (World env) (Option (Handler env))
  search_patterns h routes method path = do
    ranged ← call (h.range_routes routes)
    pure (find_pattern (strip_path_placeholders (method <> " " <> path)) ranged)

  -- `lookupRouteHandler`, with fuel for its calls of itself; they are at most one.
  unfoldable pub lookup_route_fuel :
      ℕ
      → Harness env
      → Dict (Handler env)
      → String
      → String
      → Exec (World env) (Option (Handler env))
  lookup_route_fuel zero h routes method path = pure none
  lookup_route_fuel (suc f) h routes method path =
      on_some (lookup (method <> " " <> path) routes) (λ handler. pure (some handler))
        (on_some (lookup path routes) (λ handler. pure (some handler))
          (on_some (before_query path) (λ target. lookup_route_fuel f h routes method target)
            (search_patterns h routes method path)))

  abbrev pub lookup_route_handler :
      Harness env → Dict (Handler env) → String → String → Exec (World env) (Option (Handler env))
  lookup_route_handler = lookup_route_fuel 2

-- `req.Header.Get` and its like, on the canonical names.
unfoldable pub mark_selftest_request : Env → Request → Request
mark_selftest_request env r =
    let headers = erase "X-Internal-Authenticated" r.headers in
    let token = get_or "" "X-Internal-Token" headers in
    record r {
      headers =
          if not (token == "") && token == env.getenv "RUNTIME_INTERNAL_TOKEN"
          then insert "X-Internal-Authenticated" "true" headers
          else headers;
    }
