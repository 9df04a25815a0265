-- ===== src/Storage/Roles.antt =====
-- account_role_storage.go, and `accountRoleIDs` of account_storage.go.
use omps_admin_plugin_accoun.Prelude.{
  String, Option, none, some, List, [], ◌∷◌, ◌==◌, if◌then◌else◌,
}
use omps_admin_plugin_accoun.Prelude.Text.{trim_space}
use omps_admin_plugin_accoun.Prelude.Dict.{insert, get_or}
use omps_admin_plugin_accoun.Prelude.Exec.{Exec, pure, ◌>>=◌, on_none, on_some}
use omps_admin_plugin_accoun.Account.{Error, no_valid_account_role, Result, ok, fail, on_error}
use omps_admin_plugin_accoun.Platform.{Database, Env, World, call}
use omps_admin_plugin_accoun.RoleClient.{normalize_role_status, admin_role_detail}

-- The first error of two steps of a transaction.
abbrev pub then_tx : {Tx : Type 0} → Option Error → Exec Tx (Option Error) → Exec Tx (Option Error)
then_tx (some e) next t = (some e, t)
then_tx none next t = next t

-- The rest of a transaction after `tx.Commit()`.
abbrev pub committed : {A : Type 0} → A → Option Error → Result A
committed a none = ok a
committed a (some e) = fail e

-- The list and the error that `normalizeAccountRoles` returns.
abbrev pub Normalized : Type 0
Normalized = List String × Option Error

module _ (env : Env) where
  -- `INSERT INTO account_role_bindings` for each role.
  unfoldable pub insert_bindings :
      Database env.Outside env.Tx → String → List String → Exec env.Tx (Option Error)
  insert_bindings db account_id [] t = (none, t)
  insert_bindings db account_id (role_id ∷ ids) t =
      let (e, t') = db.tx_insert_binding account_id role_id t in
      then_tx e (insert_bindings db account_id ids) t'

  unfoldable pub replace_account_roles_tx :
      Database env.Outside env.Tx → String → List String → Exec env.Tx (Option Error)
  replace_account_roles_tx db account_id role_ids t =
      let (e, t') = db.tx_delete_bindings account_id t in
      then_tx e (insert_bindings db account_id role_ids) t'

  -- `p.roles[accountID] = append([]string(nil), roleIDs...)`
  abbrev pub set_roles : String → List String → World env → World env
  set_roles account_id role_ids w = record w {
    maps = record w.maps { roles = insert account_id role_ids w.roles };
  }

  -- The part of `replaceAccountRoles` and of its like that runs in an open transaction.
  unfoldable pub replace_account_roles : String → List String → Exec (World env) (Option Error)
  replace_account_roles account_id role_ids =
      on_none env.db (λ w. (none, set_roles account_id role_ids w))
        λ db. do
          opened ← call db.begin_tx
          on_error opened (λ e. pure (some e))
              λ tx.
                let (e, tx') = replace_account_roles_tx db account_id role_ids tx in
                on_some e (λ err. pure (some err)) (call (db.commit tx'))

  -- Every caller passes no transaction.
  unfoldable pub keep_only_account_role : String → String → Exec (World env) (Option Error)
  keep_only_account_role account_id role_id =
      on_none env.db (λ w. (none, set_roles account_id (role_id ∷ []) w))
        λ db. call (db.delete_other_bindings account_id role_id)

  -- What follows in the loop once a role was found to be enabled.
  unfoldable pub keep_enabled : String → String → Exec (World env) Normalized
  keep_enabled account_id role_id = do
    err ← keep_only_account_role account_id role_id
    on_some err (λ e. pure ([], some e)) (pure (role_id ∷ [], none))

  -- One round of the loop of `normalizeAccountRoles`, before the rounds that follow.
  unfoldable pub try_role :
      String → String → Exec (World env) Normalized → Exec (World env) Normalized
  try_role account_id role_id rest = if role_id == "" then rest else do
    found ← admin_role_detail env none role_id
    on_error found (λ e. pure ([], some e))
        λ row. on_none row rest λ detail.
          if normalize_role_status detail == "enabled"
          then keep_enabled account_id role_id
          else rest

  -- The loop of `normalizeAccountRoles`: the first role that is enabled.
  unfoldable pub first_enabled : String → List String → Exec (World env) Normalized
  first_enabled account_id [] = pure ([], some no_valid_account_role)
  first_enabled account_id (id ∷ ids) =
      try_role account_id (trim_space id) (first_enabled account_id ids)

  unfoldable pub normalize_account_roles : String → List String → Exec (World env) Normalized
  normalize_account_roles account_id [] = pure ([], some no_valid_account_role)
  normalize_account_roles account_id (id ∷ []) =
      if trim_space id == ""
      then pure ([], some no_valid_account_role)
      else pure (trim_space id ∷ [], none)
  normalize_account_roles account_id (id ∷ id' ∷ ids) = first_enabled account_id (id ∷ id' ∷ ids)

  unfoldable pub account_role_ids : String → Exec (World env) (Result (List String))
  account_role_ids account_id =
      on_none env.db (λ w. (ok (get_or [] account_id w.roles), w))
        λ db. call (db.select_role_ids account_id)
