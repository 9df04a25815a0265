-- ===== src/Session/Frame.antt =====
-- Finding the current account, and opening a session, change no account.
use omps_admin_plugin_accoun.Prelude.{String}
use omps_admin_plugin_accoun.Prelude.Dict.{Dict}
use omps_admin_plugin_accoun.Prelude.Int.{ℤ}
use omps_admin_plugin_accoun.Account.{AccountRecord}
use omps_admin_plugin_accoun.Platform.{Request, Redis, Env, Maps}
use omps_admin_plugin_accoun.Platform.Keeps.{Keeps, OnAccounts, keeps_rules}
use omps_admin_plugin_accoun.Tokens.{rand_hex_string, new_token}
use omps_admin_plugin_accoun.Storage.Frame.{get_account_by_id-Keeps}
use omps_admin_plugin_accoun.Session.{
  store_session, create_session, get_account_by_session_state, project_admin_account_id,
  get_account_by_project_admin_session_state, current_account_by_token,
  current_project_admin_account_by_token, current_account_by_any_session_token,
  current_project_admin_account,
}

module _ {ι} (env : Env) {Q : Maps → Type ι} where
  store_session-Keeps :
      (rdb : Redis env.Outside) (token account_id : String) (expires_at created_at : ℤ)
      → Keeps Q (store_session env rdb token account_id expires_at created_at)
  unfolding store_session
  store_session-Keeps rdb token account_id expires_at created_at = search keeps_rules depth 9

  new_token-Keeps : Keeps Q (new_token env)
  unfolding new_token rand_hex_string
  new_token-Keeps = search keeps_rules depth 9

  pub create_session-Keeps : (account_id : String) → Keeps Q (create_session env account_id)
  unfolding create_session
  create_session-Keeps account_id =
      search (keeps_rules, new_token-Keeps, store_session-Keeps) depth 9

  project_admin_account_id-Keeps : (token : String) → Keeps Q (project_admin_account_id env token)
  unfolding project_admin_account_id
  project_admin_account_id-Keeps token = search keeps_rules depth 9

module _ {ι} (env : Env) (R : Dict AccountRecord → Type ι) where
  get_account_by_session_state-Keeps :
      (token : String) → Keeps (OnAccounts R) (get_account_by_session_state env token)
  unfolding get_account_by_session_state
  get_account_by_session_state-Keeps token = search (keeps_rules, get_account_by_id-Keeps) depth 9

  get_account_by_project_admin_session_state-Keeps :
      (token : String) → Keeps (OnAccounts R) (get_account_by_project_admin_session_state env token)
  unfolding get_account_by_project_admin_session_state
  get_account_by_project_admin_session_state-Keeps token =
      search (keeps_rules, get_account_by_id-Keeps, project_admin_account_id-Keeps) depth 9

  current_account_by_token-Keeps :
      (token : String) → Keeps (OnAccounts R) (current_account_by_token env token)
  unfolding current_account_by_token
  current_account_by_token-Keeps token = search (keeps_rules, get_account_by_session_state-Keeps)

  current_project_admin_account_by_token-Keeps :
      (token : String) → Keeps (OnAccounts R) (current_project_admin_account_by_token env token)
  unfolding current_project_admin_account_by_token
  current_project_admin_account_by_token-Keeps token =
      search (keeps_rules, get_account_by_project_admin_session_state-Keeps)

  pub current_account_by_any_session_token-Keeps :
      (token : String) → Keeps (OnAccounts R) (current_account_by_any_session_token env token)
  unfolding current_account_by_any_session_token
  current_account_by_any_session_token-Keeps token =
      search
        (keeps_rules, current_account_by_token-Keeps, current_project_admin_account_by_token-Keeps)

  pub current_project_admin_account-Keeps :
      (r : Request) → Keeps (OnAccounts R) (current_project_admin_account env r)
  unfolding current_project_admin_account
  current_project_admin_account-Keeps r =
      search (keeps_rules, get_account_by_id-Keeps, current_project_admin_account_by_token-Keeps)
