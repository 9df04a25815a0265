-- ===== src/Handlers/Update.antt =====
-- `handleAccountUpdate` of account_handlers.go.
pub mod Outcome
pub mod Untrimmed
pub mod Success
use mathlib.Core.Bool.{not}
use omps_admin_plugin_accoun.Prelude.{String, ◌&&◌, Option, none, some, List, ◌==◌, if◌then◌else◌}
use omps_admin_plugin_accoun.Prelude.Exec.{Exec, pure, ◌>>=◌, on_some}
use omps_admin_plugin_accoun.Account.{AccountRecord, Result, ok, fail}
use omps_admin_plugin_accoun.Json.{null, Response, write_json}
use omps_admin_plugin_accoun.Platform.{Request, Decoded, Env, World}
use omps_admin_plugin_accoun.Validation.{valid_record_id, normalize_status}
use omps_admin_plugin_accoun.Storage.Lookup.{get_account_by_id}
use omps_admin_plugin_accoun.Storage.Changes.{update_account, account_to_response}
use omps_admin_plugin_accoun.Access.{◌>>?◌, require_account_manage_token, clean_and_validate_roles}
use omps_admin_plugin_accoun.Handlers.Payloads.{account_json}

pub record UpdateBody : Type 0 where
  pub operator_session_token : String
  pub account_id : String
  pub status : String
  pub role_ids : List String

module _ (env : Env) where
  abbrev pub update_reply : List String → Result (Option AccountRecord) → Response
  update_reply role_ids (ok (some acc)) =
      write_json 0 (account_json (account_to_response env acc role_ids)) "ok"
  update_reply role_ids (ok none) = write_json 2254 null "账号不存在"
  update_reply role_ids (fail e) = write_json 2258 null "更新账号失败"

  -- Once the operator and the roles are accepted.
  unfoldable pub update_checked :
      AccountRecord → UpdateBody → List String → Exec (World env) Response
  update_checked operator b role_ids =
      let status = normalize_status b.status in
      if not (valid_record_id b.account_id)
      then pure (write_json 2253 null "account_id 参数非法")
      else if status == ""
      then pure (write_json 2255 null "状态参数非法")
      else do
        target ← get_account_by_id env b.account_id
        on_some target.err (λ e. pure (write_json 2258 null "更新账号失败"))
            (if not target.exists
              then pure (write_json 2254 null "账号不存在")
              else if target.acc.is_super_admin && not operator.is_super_admin
              then pure (write_json 2257 null "普通后台账号不能修改超级管理员账号")
              else do
                updated ← update_account env b.account_id status role_ids
                pure (update_reply role_ids updated))

  unfoldable pub handle_account_update : Request → Decoded UpdateBody → Exec (World env) Response
  handle_account_update r d =
      on_some d.err (λ e. pure (write_json 2251 null "请求体解析失败"))
        (require_account_manage_token env r d.body.operator_session_token 2251 2252 2258
          >>? λ operator. clean_and_validate_roles env r d.body.role_ids 2255 2256 >>? λ role_ids.
              update_checked operator d.body role_ids)
