-- ===== src/Handlers/Me.antt =====
-- `handleMe` of account_handlers.go.
use mathlib.Core.Bool.{not}
use omps_admin_plugin_accoun.Prelude.{String, ◌==◌, if◌then◌else◌}
use omps_admin_plugin_accoun.Prelude.Text.{trim_space}
use omps_admin_plugin_accoun.Prelude.Dict.{get_or}
use omps_admin_plugin_accoun.Prelude.Exec.{Exec, pure, ◌>>=◌}
use omps_admin_plugin_accoun.Account.{
  is_no_valid_account_role, Result, ok, fail, missing, account_missing, account_invalid_role,
  account_ok, Current,
}
use omps_admin_plugin_accoun.Json.{Json, null, Response, write_json}
use omps_admin_plugin_accoun.Platform.{Request, Env, World}
use omps_admin_plugin_accoun.Session.{current_account_by_any_session_token}
use omps_admin_plugin_accoun.Handlers.Payloads.{account_permission_response}

abbrev pub me_reply : Result Json → Response
me_reply (ok resp) = write_json 0 resp "ok"
me_reply (fail e) =
    if is_no_valid_account_role e
    then write_json 2214 null "账号已禁用"
    else write_json 2215 null "查询当前账号失败"

module _ (env : Env) where
  -- For a session whose account is there.
  unfoldable pub me_enabled : Request → Current → Exec (World env) Response
  me_enabled r c =
      if not (c.acc.status == "enabled")
      then pure (write_json 2214 null "账号已禁用")
      else do resp ← account_permission_response env r c.acc c.roles; pure (me_reply resp)

  -- For a token that is not empty.
  unfoldable pub me_session : Request → String → Exec (World env) Response
  me_session r token = do
    c ← current_account_by_any_session_token env token
    elim c.state as (λ _. Exec (World env) Response) [
      | missing ↦ pure (write_json 2212 null "会话不存在或已过期")
      | account_missing ↦ pure (write_json 2213 null "账号不存在")
      | account_invalid_role ↦ pure (write_json 2214 null "账号已禁用")
      | account_ok ↦ me_enabled r c
    ]

  unfoldable pub handle_me : Request → Exec (World env) Response
  handle_me r =
      let token = trim_space (get_or "" "session_token" r.query) in
      if token == "" then pure (write_json 2211 null "会话令牌参数非法") else me_session r token
