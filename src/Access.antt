-- ===== src/Access.antt =====
-- `requireAccountManageToken` of account_handlers.go and `cleanAndValidateRoles` of
-- account_validation.go: the two guards that write a response of their own when they refuse.
pub mod Frame
pub mod Cleaned
pub mod Verdict
use mathlib.Core.Bool.{not}
use omps_admin_plugin_accoun.Prelude.{
  ℕ, String, Bool, ◌&&◌, ◌||◌, List, [], ◌∷◌, ◌==◌, is_empty, if◌then◌else◌,
}
use omps_admin_plugin_accoun.Prelude.Text.{trim_space}
use omps_admin_plugin_accoun.Prelude.Exec.{Exec, pure, ◌>>=◌}
use omps_admin_plugin_accoun.Account.{
  AccountRecord, ok, fail, Current, SessionAccountState, account_ok, on_error,
}
use omps_admin_plugin_accoun.Json.{null, Response, write_json}
use omps_admin_plugin_accoun.Platform.{Request, Env, World}
use omps_admin_plugin_accoun.Validation.{valid_record_id}
use omps_admin_plugin_accoun.RoleClient.{roles_available}
use omps_admin_plugin_accoun.RoleClient.Permissions.{matched_role_ids_for_permission}
use omps_admin_plugin_accoun.Session.{
  or_else_missing, current_account_by_any_session_token, current_project_admin_account,
}

-- A guard's answer: what the handler goes on with, or the response that was written.
pub data Guarded (A : Type 0) : Type 0 where
  granted : A → Guarded A
  refused : Response → Guarded A

-- The handler stops where the guard refused.
infixl 5 ◌>>?◌
abbrev pub ◌>>?◌ :
    {env : Env} {A : Type 0}
    → Exec (World env) (Guarded A)
    → (A → Exec (World env) Response)
    → Exec (World env) Response
m >>? k = m >>= λ g. elim g as (λ _. Exec (World _) Response) [
  | granted a ↦ k a
  | refused response ↦ pure response
]

abbrev pub is_account_ok : SessionAccountState → Bool
is_account_ok account_ok = Bool.true
is_account_ok _ = Bool.false

module _ (env : Env) where
  -- The account of the token, or of the headers if the token is empty.
  unfoldable pub current_operator : Request → String → Exec (World env) Current
  current_operator r token = do
    c ← current_account_by_any_session_token env token
    if or_else_missing c && trim_space token == ""
        then current_project_admin_account env r
        else pure c

  -- The permission check of an operator who is no super administrator.
  unfoldable pub check_manage_permission :
      Request → Current → ℕ → ℕ → Exec (World env) (Guarded AccountRecord)
  check_manage_permission r c denied failure_code = do
    matched ← matched_role_ids_for_permission env r c.roles "admin_account.manage"
    on_error matched (λ e. pure (refused (write_json failure_code null "账号管理权限校验失败")))
        λ ids.
          if not (is_empty ids)
          then pure (granted c.acc)
          else pure (refused (write_json denied null "无账号管理权限"))

  unfoldable pub require_account_manage_token :
      Request → String → ℕ → ℕ → ℕ → Exec (World env) (Guarded AccountRecord)
  require_account_manage_token r token invalid denied failure_code = do
    c ← current_operator r token
    if not (is_account_ok c.state)
        then pure (refused (write_json invalid null "未登录"))
        else if not (c.acc.status == "enabled")
        then pure (refused (write_json invalid null "未登录"))
        else if c.acc.is_super_admin
        then pure (granted c.acc)
        else check_manage_permission r c denied failure_code

  -- The check of the one role that is left after the format is checked.
  unfoldable pub validate_role : Request → String → ℕ → Exec (World env) (Guarded (List String))
  validate_role r role_id unavailable_code = do
    available ← roles_available env r (role_id ∷ [])
    on_error available (λ e. pure (refused (write_json unavailable_code null "角色不存在或已停用")))
        λ is_available.
          if is_available
          then pure (granted (role_id ∷ []))
          else pure (refused (write_json unavailable_code null "角色不存在或已停用"))

  unfoldable pub clean_and_validate_roles :
      Request → List String → ℕ → ℕ → Exec (World env) (Guarded (List String))
  clean_and_validate_roles r (id ∷ []) format_code unavailable_code =
      let role_id = trim_space id in
      if role_id == "" || not (valid_record_id role_id)
      then pure (refused (write_json format_code null "角色参数非法"))
      else validate_role r role_id unavailable_code
  clean_and_validate_roles r _ format_code unavailable_code =
      pure (refused (write_json format_code null "角色参数非法"))
