-- ===== src/Handlers/Update/Success.antt =====
-- `handleAccountUpdate` does what it is asked where nothing speaks against it.
use mathlib.Core.Bool.{not}
use omps_admin_plugin_accoun.Prelude.{
  String, ◌≡◌, subst, ◌∙◌, ap, true, false, ◌&&◌, none, some, List, ◌==◌,
}
use omps_admin_plugin_accoun.Prelude.Text.{trim_space}
use omps_admin_plugin_accoun.Prelude.Dict.{lookup}
use omps_admin_plugin_accoun.Prelude.Exec.{pure, ◌>>=◌, on_some}
use omps_admin_plugin_accoun.Account.{AccountRecord, ok}
use omps_admin_plugin_accoun.Platform.{Request, Decoded, Env, World}
use omps_admin_plugin_accoun.Platform.Ends.{accounts-unchanged}
use omps_admin_plugin_accoun.Validation.{valid_record_id, normalize_status}
use omps_admin_plugin_accoun.Storage.Changes.{with_status}
use omps_admin_plugin_accoun.Storage.Lookup.{get_account_by_id}
use omps_admin_plugin_accoun.Storage.Frame.{get_account_by_id-Keeps}
use omps_admin_plugin_accoun.Storage.Found.{get_account_by_id-found}
use omps_admin_plugin_accoun.Storage.Effects.{update_account-present}
use omps_admin_plugin_accoun.Access.{
  granted, require_account_manage_token, clean_and_validate_roles,
}
use omps_admin_plugin_accoun.Access.Verdict.{granted-continues}
use omps_admin_plugin_accoun.Handlers.Update.{
  UpdateBody, update_reply, update_checked, handle_account_update,
}

module _ (env : Env) (memory : env.db ≡ none) where
  update_checked-succeeds :
      (operator : AccountRecord) (b : UpdateBody) (role_ids : List String) (w : World env)
      → valid_record_id b.account_id ≡ true
      → trim_space b.account_id ≡ b.account_id
      → normalize_status b.status == "" ≡ false
      → (get_account_by_id env b.account_id w).0.err ≡ none
      → (get_account_by_id env b.account_id w).0.exists ≡ true
      → (get_account_by_id env b.account_id w).0.acc.is_super_admin && not operator.is_super_admin
        ≡ false
      → (update_checked env operator b role_ids w).0
        ≡ update_reply env role_ids (
            ok (
              some (
                with_status
                  (get_account_by_id env b.account_id w).0.acc
                  (normalize_status b.status)
                  (env.now (get_account_by_id env b.account_id w).1.outside).0)))
  unfolding update_checked on_some ◌>>=◌ pure
  update_checked-succeeds operator b role_ids w valid trimmed status no_err exists allowed =
      let after = (get_account_by_id env b.account_id w).1 in
      let acc = (get_account_by_id env b.account_id w).0.acc in
      let same : after.accounts ≡ w.accounts =
        accounts-unchanged _ w (get_account_by_id-Keeps env _ b.account_id) in
      let here : lookup b.account_id after.accounts ≡ some acc =
        ap (lookup b.account_id) same
        ∙ subst (λ k. lookup k w.accounts ≡ some acc) trimmed
            (get_account_by_id-found env memory b.account_id w exists) in
      rw (valid, status, no_err, exists, allowed)
        (ap (update_reply env role_ids) (
          update_account-present env memory b.account_id (normalize_status b.status) role_ids after
            acc here))

  -- Without a database, handleAccountUpdate replies with the account found, with the new status
  -- and time, where the body decodes, an operator and the roles are granted, the id is valid and
  -- has no blanks around it, the status is valid, and the look-up has no error and finds an
  -- account that is no super administrator unless the operator is one.
  pub handle_account_update-succeeds :
      (r : Request) (d : Decoded UpdateBody) (operator : AccountRecord) (role_ids : List String)
      (w w' w'' : World env)
      → d.err ≡ none
      → require_account_manage_token env r d.body.operator_session_token 2251 2252 2258 w
        ≡ (granted operator, w')
      → clean_and_validate_roles env r d.body.role_ids 2255 2256 w' ≡ (granted role_ids, w'')
      → valid_record_id d.body.account_id ≡ true
      → trim_space d.body.account_id ≡ d.body.account_id
      → normalize_status d.body.status == "" ≡ false
      → (get_account_by_id env d.body.account_id w'').0.err ≡ none
      → (get_account_by_id env d.body.account_id w'').0.exists ≡ true
      → (get_account_by_id env d.body.account_id w'').0.acc.is_super_admin
          && not operator.is_super_admin
        ≡ false
      → (handle_account_update env r d w).0
        ≡ update_reply env role_ids (
            ok (
              some (
                with_status
                  (get_account_by_id env d.body.account_id w'').0.acc
                  (normalize_status d.body.status)
                  (env.now (get_account_by_id env d.body.account_id w'').1.outside).0)))
  unfolding handle_account_update on_some
  handle_account_update-succeeds r d operator role_ids w w' w'' no_err accepted cleaned valid
        trimmed status no_err' exists allowed =
      rw no_err (
        ap (λ p. p.0) (granted-continues _ _ w w' operator accepted)
        ∙ ap (λ p. p.0) (granted-continues _ _ w' w'' role_ids cleaned)
        ∙ update_checked-succeeds operator d.body role_ids w'' valid trimmed status no_err' exists
            allowed)
