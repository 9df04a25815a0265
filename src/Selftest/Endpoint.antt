-- ===== src/Selftest/Endpoint.antt =====
-- `handleSelftestInternal` of selftest.go, and the JSON of its results.
use mathlib.Core.Bool.{not}
use omps_admin_plugin_accoun.Prelude.{
  ◌+◌, String, ◌<>◌, true, false, Option, none, some, List, [], ◌∷◌, if◌then◌else◌,
}
use omps_admin_plugin_accoun.Prelude.Int.{pos}
use omps_admin_plugin_accoun.Prelude.Dict.{Dict}
use omps_admin_plugin_accoun.Prelude.Exec.{Exec, pure, ◌>>=◌}
use omps_admin_plugin_accoun.Account.{Error, message, on_error}
use omps_admin_plugin_accoun.Json.{
  Json, null, bool, num, str, arr, obj, Items, nil, item, Fields, end, field, Response, http_error,
  write_json,
}
use omps_admin_plugin_accoun.Platform.{Request, Env, World}
use omps_admin_plugin_accoun.Internal.{is_authenticated}
use omps_admin_plugin_accoun.Selftest.Template.{format_int}
use omps_admin_plugin_accoun.Selftest.Harness.{Handler, Harness}
use omps_admin_plugin_accoun.Selftest.Compare.{
  Verdict, matched, wrong_status, lacks, not_json, wrong_field,
}
use omps_admin_plugin_accoun.Selftest.Run.{
  CaseOutcome, skipped, no_route, ran, is_matched, Entry, read_failed, parse_failed, case_result,
  Tally, run_all_selftests,
}

module _ {env : Env} (h : Harness env) (routes : Dict (Handler env)) where
  -- `fail_reason`, if there is one.
  abbrev pub fail_reason : Verdict → Fields
  fail_reason matched = end
  fail_reason (wrong_status expected actual) =
      field "fail_reason"
        (str ("HTTP code 期望 " <> format_int expected <> " 实际 " <> format_int actual)) end
  fail_reason (lacks text) = field "fail_reason" (str ("响应不含期望子串: " <> h.quote text)) end
  fail_reason not_json = field "fail_reason" (str "响应不是合法 JSON，无法对比字段") end
  fail_reason (wrong_field key expected actual) =
      field "fail_reason"
        (str ("字段 " <> key <> " 期望 " <> h.sprint expected <> " 实际 " <> h.sprint actual)) end

  abbrev pub outcome_fields : CaseOutcome → Fields
  outcome_fields (skipped kind) = field "kind" (str kind) (
      field "passed" (bool true)
        (field "skipped_reason" (str ("kind=" <> kind <> " 仅在 admin-web 测试页执行")) end))
  outcome_fields (no_route method path) = field "method" (str method) (
      field "path" (str path) (
        field "passed" (bool false) (
          field "error" (str ("未找到匹配的路由 handler: " <> method <> " " <> path <> "（检查 Routes 表）"))
            end)))
  outcome_fields (ran shown verdict) = field "method" (str shown.method) (
      field "path" (str shown.path) (
        field "request_body" (str shown.request_body) (
          field "elapsed_ms" (num shown.elapsed_ms) (
            field "http_code" (num shown.http_code) (
              field "response_body" (str shown.response_body)
                (field "passed" (bool (is_matched verdict)) (fail_reason verdict)))))))

  abbrev pub failed_file : String → String → Json
  failed_file name reason =
      obj (field "file" (str name) (field "passed" (bool false) (field "error" (str reason) end)))

  abbrev pub entry_json : Entry → Json
  entry_json (read_failed name e) = failed_file name ("读取失败: " <> message e)
  entry_json (parse_failed name e) = failed_file name ("JSON 解析失败: " <> message e)
  entry_json (case_result r) = obj (
      field "file" (str r.file) (
        field "index" (num (pos r.index))
          (field "name" (str r.name) (field "api" (str r.api) (outcome_fields r.outcome)))))

  abbrev pub entries_json : List Entry → Items
  entries_json [] = nil
  entries_json (entry ∷ entries) = item (entry_json entry) (entries_json entries)

  -- No result is a nil slice, which is null.
  abbrev pub results_json : List Entry → Json
  results_json [] = null
  results_json (entry ∷ entries) = arr (entries_json (entry ∷ entries))

  abbrev pub tally_json : Tally → Json
  tally_json t = obj (
      field "total" (num (pos (t.passed + t.failed))) (
        field "passed" (num (pos t.passed))
          (field "failed" (num (pos t.failed)) (field "results" (results_json t.results) end))))

  -- `total`, `passed` and `failed` are 0.
  abbrev pub unreadable_json : Error → Json
  unreadable_json e = obj (
      field "total" (num (pos 0)) (
        field "passed" (num (pos 0)) (
          field "failed" (num (pos 0))
            (field "results" (arr nil) (field "error" (str ("tests 目录读取失败: " <> message e)) end)))))

  abbrev pub selftest_reply : Option Tally → Response
  selftest_reply none = write_json 1 null ("selftest panic: " <> h.panic_text)
  selftest_reply (some t) = write_json 0 (tally_json t) ""

  unfoldable pub handle_selftest_internal : Request → Exec (World env) Response
  handle_selftest_internal r =
      if not (is_authenticated r)
      then pure (http_error 401 "unauthorized")
      else on_error h.read_dir (λ e. pure (write_json 0 (unreadable_json e) ""))
          λ files. do tallied ← run_all_selftests h routes files; pure (selftest_reply tallied)
