-- ===== src/Handlers/Login.antt =====
-- `handleLogin` and `handleValidatePassword` of account_handlers.go.
pub mod Outcome
use mathlib.Core.Bool.{not}
use omps_admin_plugin_accoun.Prelude.{suc, String, ◌||◌, ◌/◌, List, ◌==◌, if◌then◌else◌}
use omps_admin_plugin_accoun.Prelude.Int.{ℤ, pos, negsuc}
use omps_admin_plugin_accoun.Prelude.Text.{trim_space, negate}
use omps_admin_plugin_accoun.Prelude.Exec.{Exec, pure, ◌>>=◌, on_some}
use omps_admin_plugin_accoun.Account.{AccountRecord, is_no_valid_account_role, Found, on_error}
use omps_admin_plugin_accoun.Json.{
  Json, null, bool, num, str, arr, obj, end, field, texts, Response, write_json,
}
use omps_admin_plugin_accoun.Platform.{Request, Decoded, Env, World}
use omps_admin_plugin_accoun.Validation.{valid_account, valid_password}
use omps_admin_plugin_accoun.RoleClient.{roles_available}
use omps_admin_plugin_accoun.Storage.Lookup.{get_account_by_account}
use omps_admin_plugin_accoun.Storage.Changes.{verify_password, account_to_response}
use omps_admin_plugin_accoun.Session.{create_session}
use omps_admin_plugin_accoun.Handlers.Payloads.{account_json}

pub record Credentials : Type 0 where
  pub account : String
  pub password : String

-- `int(p.sessionTTL.Seconds())`: whole seconds, toward zero.
abbrev pub whole_seconds : ℤ → ℤ
whole_seconds (pos n) = pos (n / 1000000000)
whole_seconds (negsuc n) = negate (suc n / 1000000000)

module _ (env : Env) where
  abbrev pub login_json : AccountRecord → List String → String → ℤ → Json
  login_json acc roles token expires_at = obj (
      field "account" (account_json (account_to_response env acc roles)) (
        field "session_token" (str token) (
          field "expires_at" (str (env.format_time expires_at))
            (field "ttl_seconds" (num (whole_seconds env.session_ttl)) end))))

  -- From the session on.
  unfoldable pub open_session : AccountRecord → List String → Exec (World env) Response
  open_session acc roles = do
    session ← create_session env acc.id
    on_error session (λ e. pure (write_json 2204 null "登录失败"))
        λ (token, expires_at). pure (write_json 0 (login_json acc roles token expires_at) "ok")

  -- From the account's look-up on, which had no error.
  unfoldable pub login_found : Request → String → Found → Exec (World env) Response
  login_found r password f =
      if not f.exists || not (verify_password env f.acc.password_hash password)
      then pure (write_json 2202 null "账号或密码错误")
      else if not (f.acc.status == "enabled")
      then pure (write_json 2203 null "账号已停用")
      else do
        available ← roles_available env r f.roles
        on_error available (λ e. pure (write_json 2204 null "登录失败"))
            λ holds.
              if holds
              then (open_session f.acc f.roles)
              else (pure (write_json 2203 null "账号绑定角色已失效"))

  -- The error of the decoding is dropped.
  unfoldable pub handle_login : Request → Decoded Credentials → Exec (World env) Response
  handle_login r d =
      let account = trim_space d.body.account in
      if not (valid_account account) || not (valid_password d.body.password)
      then pure (write_json 2201 null "账号和密码参数非法")
      else do
        f ← get_account_by_account env account
        on_some f.err
            (λ e.
              if is_no_valid_account_role e
              then pure (write_json 2203 null "账号绑定角色已失效")
              else pure (write_json 2204 null "登录失败"))
            (login_found r d.body.password f)

  abbrev pub identity_json : Found → Json
  identity_json f = obj (
      field "account_id" (str f.acc.id) (
        field "account" (str f.acc.username) (
          field "is_super_admin" (bool f.acc.is_super_admin)
            (field "role_ids" (arr (texts f.roles)) end))))

  -- From the account's look-up on, which had no error.
  unfoldable pub validate_found : Request → String → Found → Exec (World env) Response
  validate_found r password f =
      if not f.exists || not (verify_password env f.acc.password_hash password)
      then pure (write_json 2282 null "账号或密码错误")
      else if not (f.acc.status == "enabled")
      then pure (write_json 2283 null "账号已停用")
      else do
        available ← roles_available env r f.roles
        on_error available (λ e. pure (write_json 2284 null "账号校验失败"))
            λ holds.
              if holds
              then (pure (write_json 0 (identity_json f) "ok"))
              else (pure (write_json 2284 null "账号校验失败"))

  unfoldable pub handle_validate_password :
      Request → Decoded Credentials → Exec (World env) Response
  handle_validate_password r d =
      on_some d.err (λ e. pure (write_json 2281 null "请求体解析失败"))
        (let account = trim_space d.body.account in
          if not (valid_account account) || not (valid_password d.body.password)
          then pure (write_json 2281 null "账号和密码参数非法")
          else do
            f ← get_account_by_account env account
            (on_some f.err (λ e. pure (write_json 2284 null "账号校验失败"))
                (validate_found r d.body.password f)))
