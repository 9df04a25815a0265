-- ===== src/Storage/Effects.antt =====
-- What the changes of account_storage.go and account_delete_storage.go do to the two maps, key by key,
-- where the plugin has no database; and that they leave the maps alone where it has one.
use omps_admin_plugin_accoun.Prelude.{
  String, ◌≡◌, Bool, true, false, Option, none, some, List, arith, ◌==◌, eq_iff, if◌then◌else◌,
}
use omps_admin_plugin_accoun.Prelude.Text.{trim_space}
use omps_admin_plugin_accoun.Prelude.Dict.{Dict, lookup, lookup-insert, lookup-erase}
use omps_admin_plugin_accoun.Prelude.Exec.{pure, ◌>>=◌, on_none, on_some}
use omps_admin_plugin_accoun.Account.{AccountRecord, ok}
use omps_admin_plugin_accoun.Platform.{Env, World, call}
use omps_admin_plugin_accoun.Storage.Changes.{
  with_password_hash, with_status, hash_password, update_account, reset_password, delete_account,
}

-- Every account stands under its own id, and no id has blanks around it.
abbrev pub IsKeyed : Dict AccountRecord → Type 0
IsKeyed accounts =
    (k : String) (acc : AccountRecord)
    → lookup k accounts ≡ some acc
    → (acc.id ≡ k) × (trim_space k ≡ k)

-- Under a text and under the trimmed text stands the same account, if there is one under each.
pub same_account :
    (accounts : Dict AccountRecord) (id : String) (old acc : AccountRecord)
    → IsKeyed accounts
    → lookup id accounts ≡ some old
    → lookup (trim_space id) accounts ≡ some acc
    → acc ≡ old
same_account accounts id old acc keyed h h' = ground (arith, (keyed id old h).1)

abbrev pub is_found {ℓ} : {A : Type ℓ} → Option A → Bool
is_found none = false
is_found (some a) = true

module _ (env : Env) (memory : env.db ≡ none) where
  pub delete_account-result :
      (id : String) (w : World env)
      → (delete_account env id w).0 ≡ ok (is_found (lookup (trim_space id) w.accounts))
  unfolding delete_account on_some on_none
  delete_account-result id w = ground arith

  pub lookup-delete_account :
      (id k : String) (w : World env)
      → lookup k (delete_account env id w).1.accounts
        ≡ (if trim_space id == k then none else lookup k w.accounts)
  unfolding delete_account on_some on_none
  lookup-delete_account id k w =
      ground (arith, lookup-erase (trim_space id) k w.accounts, eq_iff (trim_space id) k)

  pub roles-delete_account :
      (id k : String) (w : World env) (acc : AccountRecord)
      → lookup (trim_space id) w.accounts ≡ some acc
      → lookup k (delete_account env id w).1.roles
        ≡ (if trim_space id == k then none else lookup k w.roles)
  unfolding delete_account on_some on_none
  roles-delete_account id k w acc h = ground (arith, lookup-erase (trim_space id) k w.roles)

  pub lookup-reset_password :
      (id password k : String) (w : World env)
      → IsKeyed w.accounts
      → (acc : AccountRecord) → lookup id w.accounts ≡ some acc
      → lookup k (reset_password env id password w).1.accounts ≡ (
          if id == k
          then some (with_password_hash acc (hash_password env password) (env.now w.outside).0)
          else lookup k w.accounts)
  unfolding reset_password on_some on_none ◌>>=◌ call
  lookup-reset_password id password k w keyed acc h = ground (
    arith,
    (keyed id acc h).0,
    lookup-insert acc.id k
        (with_password_hash acc (hash_password env password) (env.now w.outside).0) w.accounts,
  )

  pub lookup-update_account :
      (id status k : String) (role_ids : List String) (w : World env)
      → IsKeyed w.accounts
      → (acc : AccountRecord) → lookup id w.accounts ≡ some acc
      → lookup k (update_account env id status role_ids w).1.accounts ≡ (
          if id == k
          then some (with_status acc status (env.now w.outside).0)
          else lookup k w.accounts)
  unfolding update_account on_some on_none ◌>>=◌ call
  lookup-update_account id status k role_ids w keyed acc h = ground (
    arith,
    (keyed id acc h).0,
    lookup-insert acc.id k (with_status acc status (env.now w.outside).0) w.accounts,
  )

  pub roles-update_account :
      (id status k : String) (role_ids : List String) (w : World env)
      → IsKeyed w.accounts
      → (acc : AccountRecord) → lookup id w.accounts ≡ some acc
      → lookup k (update_account env id status role_ids w).1.roles
        ≡ (if id == k then some role_ids else lookup k w.roles)
  unfolding update_account on_some on_none ◌>>=◌ call
  roles-update_account id status k role_ids w keyed acc h =
      ground (arith, (keyed id acc h).0, lookup-insert acc.id k role_ids w.roles)

  -- A change of an account that is not there changes nothing.
  pub update_account-absent :
      (id status : String) (role_ids : List String) (w : World env)
      → lookup id w.accounts ≡ none
      → update_account env id status role_ids w ≡ (ok none, w)
  unfolding update_account on_some on_none ◌>>=◌ call pure
  update_account-absent id status role_ids w h = ground arith

  pub update_account-present :
      (id status : String) (role_ids : List String) (w : World env) (acc : AccountRecord)
      → lookup id w.accounts ≡ some acc
      → (update_account env id status role_ids w).0
        ≡ ok (some (with_status acc status (env.now w.outside).0))
  unfolding update_account on_some on_none ◌>>=◌ call
  update_account-present id status role_ids w acc h = ground arith

  pub reset_password-absent :
      (id password : String) (w : World env)
      → lookup id w.accounts ≡ none
      → reset_password env id password w ≡ (ok none, w)
  unfolding reset_password on_some on_none ◌>>=◌ call pure
  reset_password-absent id password w h = ground arith

  pub reset_password-present :
      (id password : String) (w : World env) (acc : AccountRecord)
      → lookup id w.accounts ≡ some acc
      → (reset_password env id password w).0
        ≡ ok (some (with_password_hash acc (hash_password env password) (env.now w.outside).0))
  unfolding reset_password on_some on_none ◌>>=◌ call
  reset_password-present id password w acc h = ground arith
