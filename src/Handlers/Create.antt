-- ===== src/Handlers/Create.antt =====
-- `handleAccountCreate` of account_handlers.go.
pub mod Outcome
pub mod Success
use mathlib.Core.Bool.{not}
use omps_admin_plugin_accoun.Prelude.{String, ◌||◌, none, some, List, ◌==◌, if◌then◌else◌}
use omps_admin_plugin_accoun.Prelude.Text.{trim_space}
use omps_admin_plugin_accoun.Prelude.Exec.{Exec, pure, ◌>>=◌, on_some}
use omps_admin_plugin_accoun.Account.{AccountRecord, Result, ok, fail}
use omps_admin_plugin_accoun.Json.{null, Response, write_json}
use omps_admin_plugin_accoun.Platform.{Request, Decoded, Env, World}
use omps_admin_plugin_accoun.Validation.{valid_account, valid_password, normalize_status}
use omps_admin_plugin_accoun.Storage.Lookup.{get_account_by_account}
use omps_admin_plugin_accoun.Storage.Changes.{create_account, account_to_response}
use omps_admin_plugin_accoun.Access.{◌>>?◌, require_account_manage_token, clean_and_validate_roles}
use omps_admin_plugin_accoun.Handlers.Payloads.{account_json}

pub record CreateBody : Type 0 where
  pub operator_session_token : String
  pub account : String
  pub password : String
  pub status : String
  pub role_ids : List String

module _ (env : Env) where
  abbrev pub create_reply : List String → Result AccountRecord → Response
  create_reply role_ids (ok acc) =
      write_json 0 (account_json (account_to_response env acc role_ids)) "ok"
  create_reply role_ids (fail e) = write_json 2227 null "创建账号失败"

  -- Once the operator and the roles are accepted.
  unfoldable pub create_checked : CreateBody → List String → Exec (World env) Response
  create_checked b role_ids =
      let account = trim_space b.account in
      let status = normalize_status b.status in
      if not (valid_account account) || not (valid_password b.password) || status == ""
      then pure (write_json 2223 null "账号参数非法")
      else do
        f ← get_account_by_account env account
        on_some f.err (λ e. pure (write_json 2227 null "创建账号失败"))
            (if f.exists then pure (write_json 2224 null "账号已存在") else do
              created ← create_account env account b.password status role_ids
              pure (create_reply role_ids created))

  unfoldable pub handle_account_create : Request → Decoded CreateBody → Exec (World env) Response
  handle_account_create r d =
      on_some d.err (λ e. pure (write_json 2221 null "请求体解析失败"))
        (require_account_manage_token env r d.body.operator_session_token 2221 2222 2227
          >>? λ operator. clean_and_validate_roles env r d.body.role_ids 2225 2226 >>? λ role_ids.
              create_checked d.body role_ids)
