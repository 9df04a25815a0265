-- ===== src/Handlers/Delete.antt =====
-- account_delete.go
pub mod Outcome
pub mod Success
use mathlib.Core.Bool.{not}
use omps_admin_plugin_accoun.Prelude.{
  String, Bool, true, false, ◌&&◌, none, some, ◌==◌, if◌then◌else◌,
}
use omps_admin_plugin_accoun.Prelude.Text.{trim_space}
use omps_admin_plugin_accoun.Prelude.Exec.{Exec, pure, ◌>>=◌, on_some}
use omps_admin_plugin_accoun.Account.{AccountRecord, Result, ok, fail}
use omps_admin_plugin_accoun.Json.{null, Response, write_json}
use omps_admin_plugin_accoun.Platform.{Request, Decoded, Env, World}
use omps_admin_plugin_accoun.Validation.{valid_record_id}
use omps_admin_plugin_accoun.Storage.Lookup.{get_account_by_id}
use omps_admin_plugin_accoun.Storage.Changes.{delete_account}
use omps_admin_plugin_accoun.Access.{◌>>?◌, require_account_manage_token}

pub record DeleteBody : Type 0 where
  pub operator_session_token : String
  pub account_id : String

abbrev pub delete_reply : Result Bool → Response
delete_reply (ok true) = write_json 0 null "ok"
delete_reply (ok false) = write_json 2294 null "账号不存在"
delete_reply (fail e) = write_json 2297 null "删除账号失败"

module _ (env : Env) where
  -- Once the operator is accepted.
  unfoldable pub delete_checked : AccountRecord → String → Exec (World env) Response
  delete_checked operator raw_id =
      let account_id = trim_space raw_id in
      if not (valid_record_id account_id) then pure (write_json 2293 null "account_id 参数非法") else do
        target ← get_account_by_id env account_id
        on_some target.err (λ e. pure (write_json 2297 null "删除账号失败"))
            (if not target.exists
              then pure (write_json 2294 null "账号不存在")
              else if target.acc.id == operator.id
              then pure (write_json 2295 null "当前账号不能删除自己")
              else if target.acc.is_super_admin && not operator.is_super_admin
              then pure (write_json 2296 null "普通后台账号不能删除超级管理员账号")
              else do deleted ← delete_account env account_id; pure (delete_reply deleted))

  unfoldable pub handle_account_delete : Request → Decoded DeleteBody → Exec (World env) Response
  handle_account_delete r d =
      on_some d.err (λ e. pure (write_json 2291 null "请求体解析失败"))
        (require_account_manage_token env r d.body.operator_session_token 2291 2292 2297
          >>? λ operator. delete_checked operator d.body.account_id)
