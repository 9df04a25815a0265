-- ===== src/Handlers/Query.antt =====
-- `handleAccountList` and `handleAccountDetail` of account_handlers.go.
use mathlib.Core.Bool.{not}
use omps_admin_plugin_accoun.Prelude.{ℕ, String, List, if◌then◌else◌}
use omps_admin_plugin_accoun.Prelude.Int.{ℤ, pos}
use omps_admin_plugin_accoun.Prelude.Text.{trim_space}
use omps_admin_plugin_accoun.Prelude.Dict.{get_or}
use omps_admin_plugin_accoun.Prelude.Exec.{Exec, pure, ◌>>=◌, on_none, on_some}
use omps_admin_plugin_accoun.Account.{AccountResponse, Result, ok, fail}
use omps_admin_plugin_accoun.Json.{
  Json, null, num, arr, obj, end, field, Response, panicked, write_json,
}
use omps_admin_plugin_accoun.Platform.{Request, Env, World}
use omps_admin_plugin_accoun.Validation.{parse_page, valid_list_filters, valid_record_id}
use omps_admin_plugin_accoun.Storage.Lookup.{get_account_by_id}
use omps_admin_plugin_accoun.Storage.Listing.{Listed, page, failed, out_of_range, list_accounts}
use omps_admin_plugin_accoun.Access.{◌>>?◌, require_account_manage_token}
use omps_admin_plugin_accoun.Handlers.Payloads.{accounts_json, account_detail_response}

abbrev pub list_json : List AccountResponse → ℕ → ℤ → ℤ → Json
list_json items total page_no page_size = obj (
    field "items" (arr (accounts_json items)) (
      field "total" (num (pos total))
        (field "page" (num page_no) (field "page_size" (num page_size) end))))

abbrev pub list_reply : ℤ → ℤ → Listed → Response
list_reply page_no page_size (page items total) =
    write_json 0 (list_json items total page_no page_size) "ok"
list_reply page_no page_size (failed e) = write_json 2235 null "查询账号列表失败"
list_reply page_no page_size out_of_range = panicked

abbrev pub detail_reply : Result Json → Response
detail_reply (ok resp) = write_json 0 resp "ok"
detail_reply (fail e) = write_json 2245 null "查询账号详情失败"

module _ (env : Env) where
  unfoldable pub list_page : Request → ℤ → ℤ → Exec (World env) Response
  list_page r page_no page_size =
      let status = get_or "" "status" r.query in
      let keyword = env.to_lower (trim_space (get_or "" "keyword" r.query)) in
      if not (valid_list_filters status keyword)
      then pure (write_json 2234 null "状态或关键词参数非法")
      else do
        listed ← list_accounts env status keyword page_no page_size
        pure (list_reply page_no page_size listed)

  unfoldable pub handle_account_list : Request → Exec (World env) Response
  handle_account_list r =
      require_account_manage_token env r (get_or "" "operator_session_token" r.query) 2231 2232 2235
      >>? λ operator.
          on_none (parse_page r) (pure (write_json 2233 null "分页参数非法"))
            λ (page_no, page_size). list_page r page_no page_size

  unfoldable pub detail_of : Request → String → Exec (World env) Response
  detail_of r account_id = do
    f ← get_account_by_id env account_id
    on_some f.err (λ e. pure (write_json 2245 null "查询账号详情失败"))
        (if not f.exists
          then pure (write_json 2244 null "账号不存在")
          else do resp ← account_detail_response env r f.acc f.roles; pure (detail_reply resp))

  unfoldable pub handle_account_detail : Request → Exec (World env) Response
  handle_account_detail r =
      require_account_manage_token env r (get_or "" "operator_session_token" r.query) 2241 2242 2245
      >>? λ operator.
          let account_id = trim_space (get_or "" "account_id" r.query) in
          if not (valid_record_id account_id)
          then pure (write_json 2243 null "account_id 参数非法")
          else detail_of r account_id
