-- ===== src/Storage/Lookup.antt =====
-- `getAccountByID` and `getAccountByAccount` of account_storage.go.
use omps_admin_plugin_accoun.Prelude.{
  String, true, false, ◌&&◌, Option, none, some, List, [], ◌∷◌, ◌==◌, if◌then◌else◌,
}
use omps_admin_plugin_accoun.Prelude.Text.{trim_space}
use omps_admin_plugin_accoun.Prelude.Dict.{Dict, lookup, get_or}
use omps_admin_plugin_accoun.Prelude.Exec.{Exec, pure, ◌>>=◌, on_none, on_some}
use omps_admin_plugin_accoun.Account.{
  AccountRecord, zero_account, Error, is_no_valid_account_role, Result, Found, on_error,
}
use omps_admin_plugin_accoun.Platform.{Database, Env, World, call}
use omps_admin_plugin_accoun.Storage.Roles.{normalize_account_roles, account_role_ids}

abbrev pub not_found : Found
not_found = record { acc = zero_account; roles = []; exists = false; err = none }

-- A super administrator may have no role.
abbrev pub with_roles : AccountRecord → List String × Option Error → Found
with_roles acc (roles, none) = record { acc = acc; roles = roles; exists = true; err = none }
with_roles acc (roles, some e) =
    if acc.is_super_admin && is_no_valid_account_role e
    then record { acc = acc; roles = []; exists = true; err = none }
    else record { acc = acc; roles = roles; exists = true; err = some e }

-- The first account with a user name, in the order in which the map is walked.
abbrev pub find_username : String → List AccountRecord → Option AccountRecord
find_username account [] = none
find_username account (acc ∷ accs) =
    if acc.username == account then some acc else find_username account accs

module _ (env : Env) where
  -- What both look-ups do once they have the account and its bindings.
  unfoldable pub found_with : AccountRecord → List String → Exec (World env) Found
  found_with acc roles = do
    normalized ← normalize_account_roles env acc.id roles
    pure (with_roles acc normalized)

  -- The branch with a database: `queryAccount`, `accountRoleIDs`, then the roles are normalized.
  unfoldable pub get_account_db :
      Database env.Outside env.Tx
      → Exec env.Outside (Result (Option AccountRecord))
      → Exec (World env) Found
  get_account_db db query_account = do
    row ← call query_account
    on_error row
        (λ e. pure (record { acc = zero_account; roles = []; exists = false; err = some e }))
        λ found_row. on_none found_row (pure not_found) λ acc. do
          ids ← account_role_ids env acc.id
          on_error ids (λ e. pure (record { acc = acc; roles = []; exists = true; err = some e }))
              λ roles. found_with acc roles

  -- The branch without one, for an account that was found in the map or not.
  unfoldable pub get_account_memory : Option AccountRecord → String → Exec (World env) Found
  get_account_memory none key = pure not_found
  get_account_memory (some acc) key = λ w. found_with acc (get_or [] key w.roles) w

  unfoldable pub get_account_by_id : String → Exec (World env) Found
  get_account_by_id account_id =
      let id = trim_space account_id in
      on_some env.db (λ db. get_account_db db (db.select_by_id id))
        (λ w. get_account_memory (lookup id w.accounts) id w)

  -- The walk over the map; the account's own id is the key of its roles.
  unfoldable pub search_username : String → Dict AccountRecord → Exec (World env) Found
  search_username account accounts = do
    accs ← call (env.range_accounts accounts)
    on_none (find_username account accs) (pure not_found)
        λ acc. get_account_memory (some acc) acc.id

  unfoldable pub get_account_by_account : String → Exec (World env) Found
  get_account_by_account account =
      on_some env.db (λ db. get_account_db db (db.select_by_account account))
        (λ w. search_username account w.accounts w)
