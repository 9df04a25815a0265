-- ===== src/Access/Frame.antt =====
-- The guards change no account.
use omps_admin_plugin_accoun.Prelude.{ℕ, String, List, [], ◌∷◌}
use omps_admin_plugin_accoun.Prelude.Dict.{Dict}
use omps_admin_plugin_accoun.Account.{AccountRecord, Current}
use omps_admin_plugin_accoun.Platform.{Request, Env, Maps}
use omps_admin_plugin_accoun.Platform.Keeps.{Keeps, OnAccounts, keeps_rules}
use omps_admin_plugin_accoun.RoleClient.Frame.{
  roles_available-Keeps, matched_role_ids_for_permission-Keeps,
}
use omps_admin_plugin_accoun.Session.Frame.{
  current_account_by_any_session_token-Keeps, current_project_admin_account-Keeps,
}
use omps_admin_plugin_accoun.Access.{
  current_operator, check_manage_permission, require_account_manage_token, validate_role,
  clean_and_validate_roles,
}

module _ {ι} (env : Env) {Q : Maps → Type ι} where
  pub check_manage_permission-Keeps :
      (r : Request) (c : Current) (denied failure_code : ℕ)
      → Keeps Q (check_manage_permission env r c denied failure_code)
  unfolding check_manage_permission
  check_manage_permission-Keeps r c denied failure_code =
      search (keeps_rules, matched_role_ids_for_permission-Keeps)

  validate_role-Keeps :
      (r : Request) (id : String) (code : ℕ) → Keeps Q (validate_role env r id code)
  unfolding validate_role
  validate_role-Keeps r id code = search (keeps_rules, roles_available-Keeps)

  pub clean_and_validate_roles-Keeps :
      (r : Request) (ids : List String) (format_code unavailable_code : ℕ)
      → Keeps Q (clean_and_validate_roles env r ids format_code unavailable_code)
  unfolding clean_and_validate_roles
  clean_and_validate_roles-Keeps r (id ∷ []) format_code unavailable_code =
      search (keeps_rules, validate_role-Keeps)
  clean_and_validate_roles-Keeps r _ format_code unavailable_code = search keeps_rules

module _ {ι} (env : Env) (R : Dict AccountRecord → Type ι) where
  pub current_operator-Keeps :
      (r : Request) (token : String) → Keeps (OnAccounts R) (current_operator env r token)
  unfolding current_operator
  current_operator-Keeps r token =
      search (
        keeps_rules, current_account_by_any_session_token-Keeps,
        current_project_admin_account-Keeps,
      )

  pub require_account_manage_token-Keeps :
      (r : Request) (token : String) (invalid denied failure_code : ℕ)
      → Keeps (OnAccounts R) (require_account_manage_token env r token invalid denied failure_code)
  unfolding require_account_manage_token
  require_account_manage_token-Keeps r token invalid denied failure_code =
      search (keeps_rules, current_operator-Keeps, check_manage_permission-Keeps) depth 9
