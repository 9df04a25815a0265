-- ===== src/Storage/Found.antt =====
-- What the look-ups find where the plugin has no database: an account of the map.
use omps_admin_plugin_accoun.Prelude.{
  String, ◌≡◌, refl, sym, ap, [], true, Option, none, some, List, arith,
}
use omps_admin_plugin_accoun.Prelude.Text.{trim_space}
use omps_admin_plugin_accoun.Prelude.Dict.{lookup, get_or}
use omps_admin_plugin_accoun.Prelude.Exec.{pure, ◌>>=◌, on_some}
use omps_admin_plugin_accoun.Account.{AccountRecord, Error}
use omps_admin_plugin_accoun.Platform.{Env, World}
use omps_admin_plugin_accoun.Storage.Lookup.{
  with_roles, found_with, get_account_memory, get_account_by_id,
}

with_roles-acc :
    (acc : AccountRecord) (n : List String × Option Error) → (with_roles acc n).acc ≡ acc
with_roles-acc acc (roles, none) = refl
with_roles-acc acc (roles, some e) = ground arith

module _ (env : Env) where
  found_with-acc :
      (acc : AccountRecord) (ids : List String) (w : World env)
      → (found_with env acc ids w).0.acc ≡ acc
  unfolding found_with ◌>>=◌ pure
  found_with-acc acc ids w = with_roles-acc acc _

  get_account_memory-found :
      (o : Option AccountRecord) (key : String) (w : World env)
      → (get_account_memory env o key w).0.exists ≡ true
      → o ≡ some (get_account_memory env o key w).0.acc
  unfolding get_account_memory pure
  get_account_memory-found none key w h = ground arith
  get_account_memory-found (some acc) key w h =
      ap some (sym (found_with-acc acc (get_or [] key w.roles) w))

  -- The account that `getAccountByID` found is the one under the trimmed id.
  pub get_account_by_id-found :
      env.db ≡ none
      → (id : String) (w : World env) → (get_account_by_id env id w).0.exists ≡ true
      → lookup (trim_space id) w.accounts ≡ some (get_account_by_id env id w).0.acc
  unfolding get_account_by_id on_some
  get_account_by_id-found memory id w h =
      ground (arith, get_account_memory-found (lookup (trim_space id) w.accounts) (trim_space id) w)
