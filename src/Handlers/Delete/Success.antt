-- ===== src/Handlers/Delete/Success.antt =====
-- `handleAccountDelete` does what it is asked where nothing speaks against it.
use mathlib.Core.Bool.{not}
use omps_admin_plugin_accoun.Prelude.{
  String, ◌≡◌, subst, ◌∙◌, ap, true, false, ◌&&◌, none, some, ◌==◌,
}
use omps_admin_plugin_accoun.Prelude.Text.{trim_space}
use omps_admin_plugin_accoun.Prelude.Text.Trim.{trim_space-idempotent}
use omps_admin_plugin_accoun.Prelude.Dict.{lookup}
use omps_admin_plugin_accoun.Prelude.Exec.{pure, ◌>>=◌, on_some}
use omps_admin_plugin_accoun.Account.{AccountRecord}
use omps_admin_plugin_accoun.Json.{null, write_json}
use omps_admin_plugin_accoun.Platform.{Request, Decoded, Env, World}
use omps_admin_plugin_accoun.Platform.Ends.{accounts-unchanged}
use omps_admin_plugin_accoun.Validation.{valid_record_id}
use omps_admin_plugin_accoun.Storage.Lookup.{get_account_by_id}
use omps_admin_plugin_accoun.Storage.Frame.{get_account_by_id-Keeps}
use omps_admin_plugin_accoun.Storage.Found.{get_account_by_id-found}
use omps_admin_plugin_accoun.Access.{granted, require_account_manage_token}
use omps_admin_plugin_accoun.Access.Verdict.{granted-continues}
use omps_admin_plugin_accoun.Handlers.Delete.{DeleteBody, delete_checked, handle_account_delete}
use omps_admin_plugin_accoun.Handlers.Delete.Outcome.{delete_found-result}

module _ (env : Env) (memory : env.db ≡ none) where
  delete_checked-succeeds :
      (operator : AccountRecord) (raw_id : String) (w : World env)
      → valid_record_id (trim_space raw_id) ≡ true
      → (get_account_by_id env (trim_space raw_id) w).0.err ≡ none
      → (get_account_by_id env (trim_space raw_id) w).0.exists ≡ true
      → (get_account_by_id env (trim_space raw_id) w).0.acc.id == operator.id ≡ false
      → (get_account_by_id env (trim_space raw_id) w).0.acc.is_super_admin
          && not operator.is_super_admin
        ≡ false
      → (delete_checked env operator raw_id w).0 ≡ write_json 0 null "ok"
  unfolding delete_checked on_some ◌>>=◌ pure
  delete_checked-succeeds operator raw_id w valid no_err exists other allowed =
      let id = trim_space raw_id in
      let after = (get_account_by_id env id w).1 in
      let acc = (get_account_by_id env id w).0.acc in
      let trimmed : trim_space id ≡ id = trim_space-idempotent raw_id in
      let same : after.accounts ≡ w.accounts =
        accounts-unchanged _ w (get_account_by_id-Keeps env _ id) in
      let here : lookup id after.accounts ≡ some acc =
        ap (lookup id) same
        ∙ subst (λ k. lookup k w.accounts ≡ some acc) trimmed
            (get_account_by_id-found env memory id w exists) in
      rw (valid, no_err, exists, other, allowed)
        (delete_found-result env memory id after acc trimmed here)

  -- Without a database, handleAccountDelete replies with status 0 where the body decodes, an
  -- operator is granted, the id is valid, and the look-up has no error and finds an account that
  -- is not the operator's own, and no super administrator unless the operator is one.
  pub handle_account_delete-succeeds :
      (r : Request) (d : Decoded DeleteBody) (operator : AccountRecord) (w w' : World env)
      → d.err ≡ none
      → require_account_manage_token env r d.body.operator_session_token 2291 2292 2297 w
        ≡ (granted operator, w')
      → valid_record_id (trim_space d.body.account_id) ≡ true
      → (get_account_by_id env (trim_space d.body.account_id) w').0.err ≡ none
      → (get_account_by_id env (trim_space d.body.account_id) w').0.exists ≡ true
      → (get_account_by_id env (trim_space d.body.account_id) w').0.acc.id == operator.id ≡ false
      → (get_account_by_id env (trim_space d.body.account_id) w').0.acc.is_super_admin
          && not operator.is_super_admin
        ≡ false
      → (handle_account_delete env r d w).0 ≡ write_json 0 null "ok"
  unfolding handle_account_delete on_some
  handle_account_delete-succeeds r d operator w w' no_err accepted valid no_err' exists other
        allowed =
      rw no_err (
        ap (λ p. p.0) (granted-continues _ _ w w' operator accepted)
        ∙ delete_checked-succeeds operator d.body.account_id w' valid no_err' exists other allowed)
