-- ===== src/Handlers/ResetPassword.antt =====
-- account_reset_password.go
pub mod Outcome
pub mod RoundTrip
use mathlib.Core.Bool.{not}
use omps_admin_plugin_accoun.Prelude.{String, ◌&&◌, Option, none, some, if◌then◌else◌}
use omps_admin_plugin_accoun.Prelude.Exec.{Exec, pure, ◌>>=◌, on_some}
use omps_admin_plugin_accoun.Account.{AccountRecord, Result, ok, fail}
use omps_admin_plugin_accoun.Json.{null, str, obj, end, field, Response, write_json}
use omps_admin_plugin_accoun.Platform.{Request, Decoded, Env, World}
use omps_admin_plugin_accoun.Validation.{valid_record_id, valid_password}
use omps_admin_plugin_accoun.Storage.Lookup.{get_account_by_id}
use omps_admin_plugin_accoun.Storage.Changes.{reset_password}
use omps_admin_plugin_accoun.Access.{◌>>?◌, require_account_manage_token}

pub record ResetBody : Type 0 where
  pub operator_session_token : String
  pub account_id : String
  pub new_password : String

module _ (env : Env) where
  abbrev pub reset_reply : String → Result (Option AccountRecord) → Response
  reset_reply account_id (ok (some acc)) =
      write_json 0
        (obj (
          field "account_id" (str account_id)
            (field "updated_at" (str (env.format_time acc.updated_at)) end)))
        "ok"
  reset_reply account_id (ok none) = write_json 2264 null "账号不存在"
  reset_reply account_id (fail e) = write_json 2267 null "重置密码失败"

  -- Once the operator is accepted.
  unfoldable pub reset_checked : AccountRecord → ResetBody → Exec (World env) Response
  reset_checked operator b =
      if not (valid_record_id b.account_id)
      then pure (write_json 2263 null "account_id 参数非法")
      else if not (valid_password b.new_password)
      then pure (write_json 2265 null "密码参数非法")
      else do
        target ← get_account_by_id env b.account_id
        on_some target.err (λ e. pure (write_json 2267 null "重置密码失败"))
            (if not target.exists
              then pure (write_json 2264 null "账号不存在")
              else if target.acc.is_super_admin && not operator.is_super_admin
              then pure (write_json 2266 null "普通后台账号不能重置超级管理员密码")
              else do
                updated ← reset_password env b.account_id b.new_password
                pure (reset_reply b.account_id updated))

  unfoldable pub handle_reset_password : Request → Decoded ResetBody → Exec (World env) Response
  handle_reset_password r d =
      on_some d.err (λ e. pure (write_json 2261 null "请求体解析失败"))
        (require_account_manage_token env r d.body.operator_session_token 2261 2262 2267
          >>? λ operator. reset_checked operator d.body)
