-- ===== src/Handlers/CheckPermission.antt =====
-- `handleCheckPermission` of account_handlers.go.
pub mod Outcome
use mathlib.Core.Bool.{not}
use omps_admin_plugin_accoun.Prelude.{
  String, Bool, true, false, List, [], ◌∷◌, ◌==◌, is_empty, if◌then◌else◌,
}
use omps_admin_plugin_accoun.Prelude.Text.{trim_space}
use omps_admin_plugin_accoun.Prelude.Exec.{Exec, pure, ◌>>=◌, on_some}
use omps_admin_plugin_accoun.Account.{
  AccountRoleResponse, Result, ok, fail, missing, account_missing, account_invalid_role, account_ok,
  Current,
}
use omps_admin_plugin_accoun.Json.{
  Json, null, bool, arr, obj, nil, end, field, texts, Response, write_json,
}
use omps_admin_plugin_accoun.Platform.{Request, Decoded, Env, World}
use omps_admin_plugin_accoun.Validation.{valid_permission_code}
use omps_admin_plugin_accoun.RoleClient.Permissions.{evaluate_role_permission}
use omps_admin_plugin_accoun.Session.{current_account_by_any_session_token}
use omps_admin_plugin_accoun.Handlers.Payloads.{roles_json, is_one_enabled}

pub record PermissionBody : Type 0 where
  pub session_token : String
  pub permission_code : String

abbrev pub super_json : Json
super_json = obj (
    field "allowed" (bool true)
      (field "is_super_admin" (bool true) (field "matched_role_ids" (arr nil) end)))

abbrev pub allowed_json : List String → List AccountRoleResponse → Json
allowed_json matched roles = obj (
    field "allowed" (bool (not (is_empty matched))) (
      field "is_super_admin" (bool false) (
        field "matched_role_ids" (arr (texts matched))
          (field "roles" (arr (roles_json roles)) end))))

-- `len(roles) == 1`
abbrev pub is_one : List String → Bool
is_one (role ∷ []) = true
is_one _ = false

abbrev pub permission_reply : Result (List String × List AccountRoleResponse) → Response
permission_reply (fail e) = write_json 2275 null "权限校验失败"
permission_reply (ok (matched, role_states)) =
    if is_one_enabled role_states
    then write_json 0 (allowed_json matched role_states) "ok"
    else write_json 2274 null "账号不存在、已禁用或没有有效角色"

module _ (env : Env) where
  -- For a session whose account is there.
  unfoldable pub permission_of : Request → String → Current → Exec (World env) Response
  permission_of r code c =
      if not (c.acc.status == "enabled")
      then pure (write_json 2274 null "账号不存在或已禁用")
      else if c.acc.is_super_admin
      then pure (write_json 0 super_json "ok")
      else if not (is_one c.roles)
      then pure (write_json 2274 null "账号不存在、已禁用或没有有效角色")
      else do answer ← evaluate_role_permission env r c.roles code; pure (permission_reply answer)

  unfoldable pub check_session : Request → String → String → Exec (World env) Response
  check_session r token code = do
    c ← current_account_by_any_session_token env token
    elim c.state as (λ _. Exec (World env) Response) [
      | missing ↦ pure (write_json 2272 null "会话不存在或已过期")
      | account_missing ↦ pure (write_json 2274 null "账号不存在或已禁用")
      | account_invalid_role ↦ pure (write_json 2274 null "账号不存在或已禁用")
      | account_ok ↦ permission_of r code c
    ]

  unfoldable pub handle_check_permission :
      Request → Decoded PermissionBody → Exec (World env) Response
  handle_check_permission r d =
      on_some d.err (λ e. pure (write_json 2271 null "请求体解析失败"))
        (let token = trim_space d.body.session_token in
          let code = trim_space d.body.permission_code in
          if token == ""
          then pure (write_json 2271 null "会话令牌参数非法")
          else if not (valid_permission_code code)
          then pure (write_json 2273 null "权限参数非法")
          else check_session r token code)
