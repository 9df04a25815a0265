-- ===== src/Selftest/Run.antt =====
-- `runSingleCase`, `runAllSelftests` and `handleSelftestInternal` of selftest.go.
use Prim.Native.Char.{code}
use Prim.Native.String.{len, slice}
use mathlib.Core.Bool.{not}
use omps_admin_plugin_accoun.Prelude.{
  ℕ, suc, ◌+◌, ◌/◌, String, ◌<>◌, Bool, true, false, ◌&&◌, ◌||◌, Option, none, some, List, [], ◌∷◌,
  ◌++◌, ◌==◌, ltb, eqb, if◌then◌else◌,
}
use omps_admin_plugin_accoun.Prelude.Int.{ℤ, pos, negsuc, ◌-ℤ◌}
use omps_admin_plugin_accoun.Prelude.Text.{ends_with, negate}
use omps_admin_plugin_accoun.Prelude.Dict.{Dict, insert, get_or}
use omps_admin_plugin_accoun.Prelude.Exec.{Exec, pure, ◌>>=◌, on_none}
use omps_admin_plugin_accoun.Account.{Error, on_error}
use omps_admin_plugin_accoun.Json.{Response, panicked}
use omps_admin_plugin_accoun.Platform.{Request, Env, World, call}
use omps_admin_plugin_accoun.Selftest.Template.{
  TemplateVars, build_template_vars, apply_template_vars,
}
use omps_admin_plugin_accoun.Selftest.Harness.{
  Handler, SelftestCase, DirEntry, Harness, lookup_route_handler, mark_selftest_request,
}
use omps_admin_plugin_accoun.Selftest.Compare.{Verdict, matched, compare_response}

-- `Milliseconds()` of a duration: toward zero.
abbrev milliseconds : ℤ → ℤ
milliseconds (pos n) = pos (n / 1000000)
milliseconds (negsuc n) = negate (suc n / 1000000)

-- What the result of a request shows.
pub record CaseRun : Type 0 where
  pub method : String
  pub path : String
  pub request_body : String
  pub http_code : ℤ
  pub response_body : String
  pub elapsed_ms : ℤ

pub data CaseOutcome : Type 0 where
  skipped : String → CaseOutcome
  no_route : String → String → CaseOutcome
  ran : CaseRun → Verdict → CaseOutcome

pub record CaseResult : Type 0 where
  pub file : String
  pub index : ℕ
  pub name : String
  pub api : String
  pub outcome : CaseOutcome

-- `result["passed"]`
abbrev pub is_matched : Verdict → Bool
is_matched matched = true
is_matched _ = false

abbrev pub has_passed : CaseOutcome → Bool
has_passed (skipped kind) = true
has_passed (no_route method path) = false
has_passed (ran shown verdict) = is_matched verdict

abbrev pub is_skipped_kind : String → Bool
is_skipped_kind kind = kind == "websocket" || kind == "sse" || kind == "file_upload"

-- `strings.SplitN(api, " ", 2)`, where there are two parts.
unfoldable pub split_api : String → Option (String × String)
split_api String.[] = none
split_api (String.◌∷◌ c s) =
    let more = split_api s in
    if eqb (code c) b' '
    then some ("", s)
    else on_none more none λ parts. some (String.◌∷◌ c parts.0, parts.1)

-- The response's body as the result shows it. A code point that the cut would split is left out.
abbrev pub shorten : String → String
shorten body = if ltb 4096 (len body) then slice body 0 4096 <> "...(truncated)" else body

-- A result of `runAllSelftests`.
pub data Entry : Type 0 where
  read_failed parse_failed : String → Error → Entry
  case_result : CaseResult → Entry

pub record Tally : Type 0 where
  pub passed : ℕ
  pub failed : ℕ
  pub results : List Entry

abbrev pub add_failed : Entry → Tally → Tally
add_failed entry t = record t { failed = t.failed + 1; results = t.results ++ entry ∷ [] }

unfoldable pub add_result : CaseResult → Tally → Tally
add_result r t =
    if has_passed r.outcome
    then record t { passed = t.passed + 1; results = t.results ++ case_result r ∷ [] }
    else record t { failed = t.failed + 1; results = t.results ++ case_result r ∷ [] }

abbrev pub result_of : String → String → ℕ → SelftestCase → Option CaseOutcome → Option CaseResult
result_of api file i c none = none
result_of api file i c (some outcome) =
    some (record { file = file; index = i; name = c.name; api = api; outcome = outcome })

abbrev pub is_test_file : DirEntry → Bool
is_test_file f = not f.is_dir && ends_with f.name ".test.json"

module _ {env : Env} (h : Harness env) (routes : Dict (Handler env)) where
  -- The method and the path of a case, from the file's `api` where it has none.
  unfoldable pub target_of : String → SelftestCase → String × String
  target_of api c =
      let method = h.to_upper c.method in
      let completed =
        (on_none (split_api api) (method, c.path)
          λ parts. (
            if method == "" then h.to_upper parts.0 else method,
            if c.path == "" then parts.1 else c.path,
          )) in
      if method == "" || c.path == "" then completed else (method, c.path)

  -- The loop over the headers of a case.
  unfoldable pub set_headers :
      Dict String → Request → TemplateVars → Exec (World env) (Request × TemplateVars)
  set_headers [] r v = pure (r, v)
  set_headers (header ∷ headers) r v = do
    value ← apply_template_vars env header.1 v
    set_headers headers
        (record r { headers = insert (h.canonical_header header.0) value.0 r.headers }) value.1

  abbrev pub with_content_type : String → Request → Request
  with_content_type body r =
      if ltb 0 (len body) && get_or "" "Content-Type" r.headers == ""
      then record r { headers = insert "Content-Type" "application/json" r.headers }
      else r

  -- What the recorder has, a panic of the handler included.
  abbrev pub recorded_of : Response → ℤ × String
  recorded_of panicked = (pos 500, "handler panic: " <> h.panic_text)
  recorded_of response = h.recorded response

  -- From the request on: the handler is called, and its response compared.
  unfoldable pub run_request :
      SelftestCase
      → String
      → String
      → String
      → Handler env
      → Request
      → TemplateVars
      → Exec (World env) CaseOutcome
  run_request c method path body handler r v = do
    headers ← call (h.range_headers c.headers)
    filled ← set_headers headers r v
    started_at ← call env.now
    response ← handler (with_content_type body (mark_selftest_request env filled.0)) body
    ended_at ← call env.now
    let answer = recorded_of response
    verdict ← compare_response h c answer.0 answer.1 filled.1
    pure (
        ran
          (record {
            method = method;
            path = path;
            request_body = body;
            http_code = answer.0;
            response_body = shorten answer.1;
            elapsed_ms = milliseconds (ended_at -ℤ started_at);
          })
          verdict)

  -- From the route on; `none` is the panic of a request that cannot be built.
  unfoldable pub run_routed :
      SelftestCase
      → String
      → String
      → Handler env
      → TemplateVars
      → Exec (World env) (Option CaseOutcome)
  run_routed c method path handler v = do
    body ← apply_template_vars env c.body v
    on_none (h.new_request method path) (pure none)
        λ r. do outcome ← run_request c method path body.0 handler r body.1; pure (some outcome)

  unfoldable pub run_http : String → SelftestCase → Exec (World env) (Option CaseOutcome)
  run_http api c = do
    let target = target_of api c
    vars ← build_template_vars env
    path ← apply_template_vars env target.1 vars
    route ← lookup_route_handler h routes target.0 path.0
    on_none route (pure (some (no_route target.0 path.0)))
        λ handler. run_routed c target.0 path.0 handler path.1

  unfoldable pub run_single_case :
      String → String → ℕ → SelftestCase → Exec (World env) (Option CaseResult)
  run_single_case api file i c =
      let kind = env.to_lower c.kind in
      if is_skipped_kind kind
      then pure (result_of api file i c (some (skipped kind)))
      else do outcome ← run_http api c; pure (result_of api file i c outcome)

  -- The loop over the cases of a file, from case `i` on; `none` is a panic.
  unfoldable pub run_cases :
      String → String → ℕ → List SelftestCase → Tally → Exec (World env) (Option Tally)
  run_cases api file i [] t = pure (some t)
  run_cases api file i (c ∷ cs) t = do
    result ← run_single_case api file i c
    on_none result (pure none) λ r. run_cases api file (suc i) cs (add_result r t)

  unfoldable pub run_file : DirEntry → Tally → Exec (World env) (Option Tally)
  run_file f t =
      if not (is_test_file f)
      then pure (some t)
      else on_error (h.read_file ("tests/" <> f.name))
          (λ e. pure (some (add_failed (read_failed f.name e) t)))
          λ raw.
            on_error (h.unmarshal_file raw)
              (λ e. pure (some (add_failed (parse_failed f.name e) t)))
              λ parsed. run_cases parsed.api f.name 0 parsed.cases t

  unfoldable pub run_files : List DirEntry → Tally → Exec (World env) (Option Tally)
  run_files [] t = pure (some t)
  run_files (f ∷ fs) t = do
    tallied ← run_file f t
    on_none tallied (pure none) λ t'. run_files fs t'

  -- `runAllSelftests`, of the entries of the directory.
  unfoldable pub run_all_selftests : List DirEntry → Exec (World env) (Option Tally)
  run_all_selftests files = run_files files (record { passed = 0; failed = 0; results = [] })
