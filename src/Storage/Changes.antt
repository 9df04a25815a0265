-- ===== src/Storage/Changes.antt =====
-- `createAccount`, `updateAccount`, `resetPassword`, `hashPassword` and `verifyPassword` of
-- account_storage.go, and account_delete_storage.go.
use omps_admin_plugin_accoun.Prelude.{
  String, Bool, true, false, Option, none, some, List, ◌==◌, eqb, if◌then◌else◌,
}
use omps_admin_plugin_accoun.Prelude.Int.{ℤ}
use omps_admin_plugin_accoun.Prelude.Text.{trim_space}
use omps_admin_plugin_accoun.Prelude.Dict.{lookup, insert, erase}
use omps_admin_plugin_accoun.Prelude.Exec.{Exec, pure, ◌>>=◌, on_none, on_some}
use omps_admin_plugin_accoun.Account.{
  AccountRecord, AccountResponse, zero_account, Result, ok, fail, on_error,
}
use omps_admin_plugin_accoun.Platform.{Database, Env, World, call}
use omps_admin_plugin_accoun.Tokens.{encode_hex, new_short_id}
use omps_admin_plugin_accoun.Storage.Roles.{committed, set_roles, replace_account_roles_tx}

-- The records that the branches without a database write.
abbrev pub new_account : String → String → String → String → ℤ → AccountRecord
new_account id account password_hash status now = record zero_account {
  id = id;
  username = account;
  password_hash = password_hash;
  status = status;
  created_at = now;
  updated_at = now;
}

abbrev pub with_status : AccountRecord → String → ℤ → AccountRecord
with_status acc status now = record acc { status = status; updated_at = now }

abbrev pub with_password_hash : AccountRecord → String → ℤ → AccountRecord
with_password_hash acc password_hash now = record acc {
  password_hash = password_hash;
  updated_at = now;
}

module _ (env : Env) where
  -- `hashPassword`, which has no error: SHA-256 in hex.
  unfoldable pub hash_password : String → String
  hash_password password = encode_hex (env.sha256 password)

  unfoldable pub verify_password : String → String → Bool
  verify_password hash password = hash == hash_password password

  -- `append([]string(nil), roles...)` of no roles is nil, which `account_json` shows as null.
  abbrev pub account_to_response : AccountRecord → List String → AccountResponse
  account_to_response acc roles = record {
    account_id = acc.id;
    account = acc.username;
    status = acc.status;
    role_ids = roles;
    is_super_admin = acc.is_super_admin;
    created_at = env.format_time acc.created_at;
    updated_at = env.format_time acc.updated_at;
  }

  -- `p.accounts[acc.ID] = acc`
  abbrev pub set_account : AccountRecord → World env → World env
  set_account acc w = record w { maps = record w.maps { accounts = insert acc.id acc w.accounts } }

  -- The statements of a transaction that has its row: the bindings are replaced, then it commits.
  unfoldable pub finish_with_roles :
      Database env.Outside env.Tx
      → AccountRecord
      → List String
      → env.Tx
      → Exec (World env) (Result AccountRecord)
  finish_with_roles db acc role_ids tx =
      let (e, tx') = replace_account_roles_tx env db acc.id role_ids tx in
      on_some e (λ err. pure (fail err)) (do done ← call (db.commit tx'); pure (committed acc done))

  -- The branch of `createAccount` with a database.
  unfoldable pub create_account_db :
      Database env.Outside env.Tx
      → String
      → String
      → String
      → List String
      → Exec (World env) (Result AccountRecord)
  create_account_db db account password_hash status role_ids = do
    opened ← call db.begin_tx
    on_error opened (λ e. pure (fail e))
        λ tx.
          let (row, tx') = db.tx_insert_account account password_hash status tx in
          on_error row (λ e. pure (fail e)) λ acc. finish_with_roles db acc role_ids tx'

  -- The branch without one.
  unfoldable pub create_account_memory :
      ℤ → String → String → String → List String → Exec (World env) (Result AccountRecord)
  create_account_memory now account password_hash status role_ids = do
    id ← new_short_id env
    let acc = new_account id account password_hash status now
    λ w. (ok acc, set_roles env id role_ids (set_account acc w))

  -- The result is the account; the code hands `roleIDs` back beside it.
  unfoldable pub create_account :
      String → String → String → List String → Exec (World env) (Result AccountRecord)
  create_account account password status role_ids = do
    now ← call env.now
    let password_hash = hash_password password
    on_some env.db (λ db. create_account_db db account password_hash status role_ids)
        (create_account_memory now account password_hash status role_ids)

  -- `some acc` beside a true `exists`, `none` beside a false one.
  abbrev pub Updated : Type 0
  Updated = Result (Option AccountRecord)

  abbrev pub as_updated : Result AccountRecord → Updated
  as_updated (ok acc) = ok (some acc)
  as_updated (fail e) = fail e

  unfoldable pub update_account : String → String → List String → Exec (World env) Updated
  update_account account_id status role_ids =
      on_some env.db
        (λ db. do
          opened ← call db.begin_tx
          (on_error opened (λ e. pure (fail e))
              λ tx.
                let (row, tx') = db.tx_update_status account_id status tx in
                (on_error row (λ e. pure (fail e))
                  λ found_row. on_none found_row (pure (ok none)) λ acc. do
                    done ← finish_with_roles db acc role_ids tx'
                    pure (as_updated done))))
        (λ w.
          ((on_none (lookup account_id w.accounts) (pure (ok none)) λ old. do
            now ← call env.now
            let acc = with_status old status now
            λ w. (ok (some acc), set_roles env acc.id role_ids (set_account acc w))))
            w)

  unfoldable pub reset_password : String → String → Exec (World env) Updated
  reset_password account_id new_password =
      on_some env.db (λ db. call (db.update_password_hash account_id (hash_password new_password)))
        (λ w.
          ((on_none (lookup account_id w.accounts) (pure (ok none)) λ old. do
            now ← call env.now
            let acc = with_password_hash old (hash_password new_password) now
            λ w. (ok (some acc), set_account acc w)))
            w)

  -- The transaction of `deleteAccount`.
  unfoldable pub delete_account_db :
      Database env.Outside env.Tx → String → Exec (World env) (Result Bool)
  delete_account_db db id = do
    opened ← call db.begin_tx
    on_error opened (λ e. pure (fail e))
        λ tx.
          let (e, tx') = db.tx_delete_bindings id tx in
          let (affected, tx'') = db.tx_delete_account id tx' in
          on_some e (λ err. pure (fail err))
            ((on_error affected (λ err. pure (fail err))
              λ rows.
                if eqb rows 0
                then pure (ok false)
                else (do done ← call (db.commit tx''); pure (committed true done))))

  unfoldable pub delete_account : String → Exec (World env) (Result Bool)
  delete_account account_id =
      let id = trim_space account_id in
      on_some env.db (λ db. delete_account_db db id)
        (λ w.
          (on_none (lookup id w.accounts) ((ok false, w)) λ acc. (
            ok true,
            record w { maps = record { accounts = erase id w.accounts; roles = erase id w.roles } },
          )))
