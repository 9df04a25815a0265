-- ===== src/Storage/Frame.antt =====
-- Look-ups change no account: they may cut an account's bindings down, and nothing else.
use omps_admin_plugin_accoun.Prelude.{String, Option, none, some, List, [], ◌∷◌}
use omps_admin_plugin_accoun.Prelude.Int.{ℤ}
use omps_admin_plugin_accoun.Prelude.Text.{trim_space}
use omps_admin_plugin_accoun.Prelude.Dict.{Dict, lookup}
use omps_admin_plugin_accoun.Prelude.Exec.{Exec}
use omps_admin_plugin_accoun.Account.{AccountRecord, AccountResponse, Result}
use omps_admin_plugin_accoun.Platform.{Database, Env, World}
use omps_admin_plugin_accoun.Platform.Keeps.{
  Keeps, OnAccounts, Keeps-bind, Keeps-call, Keeps-get, Keeps-gets, Keeps-on_none, Keeps-on_some,
  keeps_rules,
}
use omps_admin_plugin_accoun.RoleClient.Frame.{admin_role_detail-Keeps}
use omps_admin_plugin_accoun.Storage.Roles.{
  Normalized, set_roles, keep_only_account_role, keep_enabled, try_role, first_enabled,
  normalize_account_roles, account_role_ids,
}
use omps_admin_plugin_accoun.Storage.Lookup.{
  found_with, get_account_db, get_account_memory, search_username, get_account_by_id,
  get_account_by_account,
}
use omps_admin_plugin_accoun.Storage.Listing.{
  row_item, rows_loop, list_accounts_db, list_accounts_memory, list_accounts,
}

module _ {ι} (env : Env) (R : Dict AccountRecord → Type ι) where
  set_roles-Keeps :
      {A : Type 0} (a : A) (id : String) (ids : List String)
      → Keeps {env = env} (OnAccounts R) (λ w. (a, set_roles env id ids w))
  set_roles-Keeps a id ids = record { at = λ w h. h }

  keep_only_account_role-Keeps :
      (id role_id : String) → Keeps (OnAccounts R) (keep_only_account_role env id role_id)
  unfolding keep_only_account_role
  keep_only_account_role-Keeps id role_id = search (keeps_rules, set_roles-Keeps)

  account_role_ids-Keeps : (id : String) → Keeps (OnAccounts R) (account_role_ids env id)
  unfolding account_role_ids
  account_role_ids-Keeps id = Keeps-on_none _ _ _ (Keeps-gets _) (λ db. Keeps-call _)

  keep_enabled-Keeps : (id role_id : String) → Keeps (OnAccounts R) (keep_enabled env id role_id)
  unfolding keep_enabled
  keep_enabled-Keeps id role_id = search (keeps_rules, keep_only_account_role-Keeps)

  try_role-Keeps :
      (id role_id : String) (rest : Exec (World env) Normalized)
      → Keeps (OnAccounts R) rest
      → Keeps (OnAccounts R) (try_role env id role_id rest)
  unfolding try_role
  try_role-Keeps id role_id rest h =
      search (keeps_rules, admin_role_detail-Keeps, keep_enabled-Keeps) depth 9

  first_enabled-Keeps :
      (id : String) (ids : List String) → Keeps (OnAccounts R) (first_enabled env id ids)
  unfolding first_enabled
  first_enabled-Keeps id [] = search keeps_rules
  first_enabled-Keeps id (i ∷ ids) = try_role-Keeps id _ _ (first_enabled-Keeps id ids)

  normalize_account_roles-Keeps :
      (id : String) (ids : List String) → Keeps (OnAccounts R) (normalize_account_roles env id ids)
  unfolding normalize_account_roles
  normalize_account_roles-Keeps id [] = search keeps_rules
  normalize_account_roles-Keeps id (i ∷ []) = search keeps_rules
  normalize_account_roles-Keeps id (i ∷ j ∷ ids) = first_enabled-Keeps id (i ∷ j ∷ ids)

  found_with-Keeps :
      (acc : AccountRecord) (ids : List String) → Keeps (OnAccounts R) (found_with env acc ids)
  unfolding found_with
  found_with-Keeps acc ids = search (keeps_rules, normalize_account_roles-Keeps)

  get_account_db-Keeps :
      (db : Database env.Outside env.Tx) (query : Exec env.Outside (Result (Option AccountRecord)))
      → Keeps (OnAccounts R) (get_account_db env db query)
  unfolding get_account_db
  get_account_db-Keeps db query =
      search (keeps_rules, found_with-Keeps, account_role_ids-Keeps) depth 9

  get_account_memory-Keeps :
      (o : Option AccountRecord) (key : String)
      → Keeps (OnAccounts R) (get_account_memory env o key)
  unfolding get_account_memory
  get_account_memory-Keeps none key = search keeps_rules
  get_account_memory-Keeps (some acc) key = Keeps-get _ (λ w. found_with-Keeps acc _)

  pub get_account_by_id-Keeps : (id : String) → Keeps (OnAccounts R) (get_account_by_id env id)
  unfolding get_account_by_id
  get_account_by_id-Keeps id =
      Keeps-on_some _ _ _ (λ db. get_account_db-Keeps db _)
        (Keeps-get _ (λ w. get_account_memory-Keeps (lookup (trim_space id) w.accounts) _))

  search_username-Keeps :
      (account : String) (accounts : Dict AccountRecord)
      → Keeps (OnAccounts R) (search_username env account accounts)
  unfolding search_username
  search_username-Keeps account accounts = search (keeps_rules, get_account_memory-Keeps)

  pub get_account_by_account-Keeps :
      (account : String) → Keeps (OnAccounts R) (get_account_by_account env account)
  unfolding get_account_by_account
  get_account_by_account-Keeps account =
      Keeps-on_some _ _ _ (λ db. get_account_db-Keeps db _)
        (Keeps-get _ (λ w. search_username-Keeps account w.accounts))

  row_item-Keeps : (acc : AccountRecord) → Keeps (OnAccounts R) (row_item env acc)
  unfolding row_item
  row_item-Keeps acc = search (keeps_rules, account_role_ids-Keeps, normalize_account_roles-Keeps)

  rows_loop-Keeps :
      (accs : List AccountRecord) (items : List AccountResponse)
      → Keeps (OnAccounts R) (rows_loop env accs items)
  unfolding rows_loop
  rows_loop-Keeps [] items = search keeps_rules
  rows_loop-Keeps (acc ∷ accs) items =
      Keeps-bind _ _ (row_item-Keeps acc) λ item. search (keeps_rules, rows_loop-Keeps accs)

  list_accounts_db-Keeps :
      (db : Database env.Outside env.Tx) (status keyword : String) (page_no page_size : ℤ)
      → Keeps (OnAccounts R) (list_accounts_db env db status keyword page_no page_size)
  unfolding list_accounts_db
  list_accounts_db-Keeps db status keyword page_no page_size =
      search (keeps_rules, rows_loop-Keeps) depth 9

  list_accounts_memory-Keeps :
      (status keyword : String) (page_no page_size : ℤ) (accounts : Dict AccountRecord)
      (roles : Dict (List String))
      → Keeps
          (OnAccounts R)
          (list_accounts_memory env status keyword page_no page_size accounts roles)
  unfolding list_accounts_memory
  list_accounts_memory-Keeps status keyword page_no page_size accounts roles = search keeps_rules

  pub list_accounts-Keeps :
      (status keyword : String) (page_no page_size : ℤ)
      → Keeps (OnAccounts R) (list_accounts env status keyword page_no page_size)
  unfolding list_accounts
  list_accounts-Keeps status keyword page_no page_size =
      Keeps-on_some _ _ _ (λ db. list_accounts_db-Keeps db _ _ _ _)
        (Keeps-get _ (λ w. list_accounts_memory-Keeps _ _ _ _ w.accounts w.roles))
