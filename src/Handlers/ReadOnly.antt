-- ===== src/Handlers/ReadOnly.antt =====
-- The handlers that only read change no account.
use omps_admin_plugin_accoun.Prelude.{String, ◌≡◌}
use omps_admin_plugin_accoun.Prelude.Int.{ℤ}
use omps_admin_plugin_accoun.Prelude.Dict.{Dict}
use omps_admin_plugin_accoun.Prelude.Exec.{Exec, pure}
use omps_admin_plugin_accoun.Account.{
  AccountRecord, Current, Found, SessionAccountState, missing, account_missing,
  account_invalid_role, account_ok,
}
use omps_admin_plugin_accoun.Json.{Response}
use omps_admin_plugin_accoun.Platform.{Request, Decoded, Env, Maps, World}
use omps_admin_plugin_accoun.Platform.Keeps.{Keeps, OnAccounts, Keeps-bind, Keeps-pure, keeps_rules}
use omps_admin_plugin_accoun.Platform.Ends.{accounts-unchanged}
use omps_admin_plugin_accoun.RoleClient.Frame.{
  roles_available-Keeps, role_details_and_permissions-Keeps, evaluate_role_permission-Keeps,
}
use omps_admin_plugin_accoun.Storage.Frame.{
  get_account_by_id-Keeps, get_account_by_account-Keeps, list_accounts-Keeps,
}
use omps_admin_plugin_accoun.Session.Frame.{
  create_session-Keeps, current_account_by_any_session_token-Keeps,
}
use omps_admin_plugin_accoun.Access.{Guarded, granted, refused, ◌>>?◌}
use omps_admin_plugin_accoun.Access.Frame.{require_account_manage_token-Keeps}
use omps_admin_plugin_accoun.Handlers.Payloads.{
  account_detail_response, account_permission_response,
}
use omps_admin_plugin_accoun.Handlers.Me.{me_enabled, me_session, handle_me}
use omps_admin_plugin_accoun.Handlers.Query.{
  list_page, handle_account_list, detail_of, handle_account_detail,
}
use omps_admin_plugin_accoun.Handlers.Login.{
  Credentials, open_session, login_found, handle_login, validate_found, handle_validate_password,
}
use omps_admin_plugin_accoun.Handlers.CheckPermission.{
  PermissionBody, permission_of, check_session, handle_check_permission,
}

module _ {ι} (env : Env) {Q : Maps → Type ι} where
  Keeps-state :
      (s : SessionAccountState) (a b c m : Exec (World env) Response)
      → Keeps Q a
      → Keeps Q b
      → Keeps Q c
      → Keeps Q m
      → Keeps Q (elim s as (λ _. Exec (World env) Response) [
        | missing ↦ a
        | account_missing ↦ b
        | account_invalid_role ↦ c
        | account_ok ↦ m
      ])
  Keeps-state missing a b c m p q t v = p
  Keeps-state account_missing a b c m p q t v = q
  Keeps-state account_invalid_role a b c m p q t v = t
  Keeps-state account_ok a b c m p q t v = v

module _ {ι} {env : Env} {A : Type 0} {Q : Maps → Type ι} where
  Keeps-guard :
      (m : Exec (World env) (Guarded A)) (k : A → Exec (World env) Response)
      → Keeps Q m
      → ((a : A) → Keeps Q (k a))
      → Keeps Q (m >>? k)
  Keeps-guard m k p q = Keeps-bind m _ p go
    where
      go :
          (g : Guarded A)
          → Keeps Q (elim g as (λ _. Exec (World env) Response) [
            | granted a ↦ k a
            | refused response ↦ pure response
          ])
      go (granted a) = q a
      go (refused response) = Keeps-pure response

module _ {ι} (env : Env) (R : Dict AccountRecord → Type ι) where
  login_found-Keeps :
      (r : Request) (password : String) (f : Found)
      → Keeps (OnAccounts R) (login_found env r password f)
  unfolding login_found open_session
  login_found-Keeps r password f =
      search (keeps_rules, roles_available-Keeps, create_session-Keeps) depth 12

  pub handle_login-Keeps :
      (r : Request) (d : Decoded Credentials) → Keeps (OnAccounts R) (handle_login env r d)
  unfolding handle_login
  handle_login-Keeps r d =
      search (keeps_rules, get_account_by_account-Keeps, login_found-Keeps) depth 12

  validate_found-Keeps :
      (r : Request) (password : String) (f : Found)
      → Keeps (OnAccounts R) (validate_found env r password f)
  unfolding validate_found
  validate_found-Keeps r password f = search (keeps_rules, roles_available-Keeps) depth 12

  pub handle_validate_password-Keeps :
      (r : Request) (d : Decoded Credentials)
      → Keeps (OnAccounts R) (handle_validate_password env r d)
  unfolding handle_validate_password
  handle_validate_password-Keeps r d =
      search (keeps_rules, get_account_by_account-Keeps, validate_found-Keeps) depth 12

  permission_of-Keeps :
      (r : Request) (code : String) (c : Current)
      → Keeps (OnAccounts R) (permission_of env r code c)
  unfolding permission_of
  permission_of-Keeps r code c = search (keeps_rules, evaluate_role_permission-Keeps) depth 12

  check_session-Keeps :
      (r : Request) (token code : String) → Keeps (OnAccounts R) (check_session env r token code)
  unfolding check_session
  check_session-Keeps r token code =
      Keeps-bind _ _ (current_account_by_any_session_token-Keeps env R token) λ c.
        Keeps-state env c.state _ _ _ _ (search keeps_rules) (search keeps_rules)
          (search keeps_rules) (permission_of-Keeps r code c)

  pub handle_check_permission-Keeps :
      (r : Request) (d : Decoded PermissionBody)
      → Keeps (OnAccounts R) (handle_check_permission env r d)
  unfolding handle_check_permission
  handle_check_permission-Keeps r d = search (keeps_rules, check_session-Keeps) depth 12

  me_enabled-Keeps : (r : Request) (c : Current) → Keeps (OnAccounts R) (me_enabled env r c)
  unfolding me_enabled account_permission_response
  me_enabled-Keeps r c = search (keeps_rules, role_details_and_permissions-Keeps) depth 12

  me_session-Keeps : (r : Request) (token : String) → Keeps (OnAccounts R) (me_session env r token)
  unfolding me_session
  me_session-Keeps r token =
      Keeps-bind _ _ (current_account_by_any_session_token-Keeps env R token) λ c.
        Keeps-state env c.state _ _ _ _ (search keeps_rules) (search keeps_rules)
          (search keeps_rules) (me_enabled-Keeps r c)

  pub handle_me-Keeps : (r : Request) → Keeps (OnAccounts R) (handle_me env r)
  unfolding handle_me
  handle_me-Keeps r = search (keeps_rules, me_session-Keeps) depth 12

  list_page-Keeps :
      (r : Request) (page_no page_size : ℤ)
      → Keeps (OnAccounts R) (list_page env r page_no page_size)
  unfolding list_page
  list_page-Keeps r page_no page_size = search (keeps_rules, list_accounts-Keeps) depth 12

  pub handle_account_list-Keeps : (r : Request) → Keeps (OnAccounts R) (handle_account_list env r)
  unfolding handle_account_list
  handle_account_list-Keeps r =
      search (keeps_rules, Keeps-guard, require_account_manage_token-Keeps, list_page-Keeps) depth
        12

  detail_of-Keeps : (r : Request) (id : String) → Keeps (OnAccounts R) (detail_of env r id)
  unfolding detail_of account_detail_response
  detail_of-Keeps r id =
      search (keeps_rules, get_account_by_id-Keeps, role_details_and_permissions-Keeps) depth 12

  pub handle_account_detail-Keeps :
      (r : Request) → Keeps (OnAccounts R) (handle_account_detail env r)
  unfolding handle_account_detail
  handle_account_detail-Keeps r =
      search (keeps_rules, Keeps-guard, require_account_manage_token-Keeps, detail_of-Keeps) depth
        12

-- handleLogin, handleValidatePassword, handleCheckPermission, handleMe, handleAccountList and
-- handleAccountDetail leave the plugin's accounts as they were.
pub readers-unchanged :
    (env : Env) (r : Request) (credentials : Decoded Credentials)
    (permission : Decoded PermissionBody) (w : World env)
    → ((handle_login env r credentials w).1.accounts ≡ w.accounts)
      × ((handle_validate_password env r credentials w).1.accounts ≡ w.accounts)
      × ((handle_check_permission env r permission w).1.accounts ≡ w.accounts)
      × ((handle_me env r w).1.accounts ≡ w.accounts)
      × ((handle_account_list env r w).1.accounts ≡ w.accounts)
      × ((handle_account_detail env r w).1.accounts ≡ w.accounts)
readers-unchanged env r credentials permission w = (
  accounts-unchanged _ w (handle_login-Keeps env _ r credentials),
  accounts-unchanged _ w (handle_validate_password-Keeps env _ r credentials),
  accounts-unchanged _ w (handle_check_permission-Keeps env _ r permission),
  accounts-unchanged _ w (handle_me-Keeps env _ r),
  accounts-unchanged _ w (handle_account_list-Keeps env _ r),
  accounts-unchanged _ w (handle_account_detail-Keeps env _ r),
)
