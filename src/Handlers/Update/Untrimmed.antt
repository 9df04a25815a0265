-- ===== src/Handlers/Update/Untrimmed.antt =====
-- `handleAccountUpdate` with blanks around the id: the look-up trims them, the change does not.
use mathlib.Core.Bool.{not}
use omps_admin_plugin_accoun.Prelude.{
  String, ◌≡◌, ◌≢◌, ◌∙◌, ap, true, false, ◌&&◌, none, List, ◌==◌, Option-cases, inl, inr,
}
use omps_admin_plugin_accoun.Prelude.Text.{trim_space}
use omps_admin_plugin_accoun.Prelude.Dict.{lookup}
use omps_admin_plugin_accoun.Prelude.Exec.{pure, ◌>>=◌, on_some}
use omps_admin_plugin_accoun.Account.{AccountRecord}
use omps_admin_plugin_accoun.Json.{null, write_json}
use omps_admin_plugin_accoun.Platform.{Request, Decoded, Env, World}
use omps_admin_plugin_accoun.Platform.Ends.{accounts-unchanged}
use omps_admin_plugin_accoun.Validation.{valid_record_id, normalize_status}
use omps_admin_plugin_accoun.Storage.Lookup.{get_account_by_id}
use omps_admin_plugin_accoun.Storage.Frame.{get_account_by_id-Keeps}
use omps_admin_plugin_accoun.Storage.Effects.{IsKeyed, update_account-absent}
use omps_admin_plugin_accoun.Access.{
  granted, require_account_manage_token, clean_and_validate_roles,
}
use omps_admin_plugin_accoun.Access.Verdict.{granted-continues}
use omps_admin_plugin_accoun.Handlers.Update.{
  UpdateBody, update_reply, update_checked, handle_account_update,
}

module _ (env : Env) (memory : env.db ≡ none) where
  update_checked-untrimmed :
      (operator : AccountRecord) (b : UpdateBody) (role_ids : List String) (w : World env)
      → IsKeyed w.accounts
      → valid_record_id b.account_id ≡ true
      → trim_space b.account_id ≢ b.account_id
      → normalize_status b.status == "" ≡ false
      → (get_account_by_id env b.account_id w).0.err ≡ none
      → (get_account_by_id env b.account_id w).0.exists ≡ true
      → (get_account_by_id env b.account_id w).0.acc.is_super_admin && not operator.is_super_admin
        ≡ false
      → ((update_checked env operator b role_ids w).0 ≡ write_json 2254 null "账号不存在")
        × ((update_checked env operator b role_ids w).1.accounts ≡ w.accounts)
  unfolding update_checked on_some ◌>>=◌ pure
  update_checked-untrimmed operator b role_ids w keyed valid padded status no_err exists allowed =
      let after = (get_account_by_id env b.account_id w).1 in
      let same : after.accounts ≡ w.accounts =
        accounts-unchanged _ w (get_account_by_id-Keeps env _ b.account_id) in
      let absent : lookup b.account_id w.accounts ≡ none =
        elim (Option-cases (lookup b.account_id w.accounts)) [
          | inl e ↦ e
          | inr (acc, e) ↦ elim (padded (keyed b.account_id acc e).1) [ ]
        ] in
      let untouched =
        update_account-absent env memory b.account_id (normalize_status b.status) role_ids after
          (ap (lookup b.account_id) same ∙ absent) in
      rw (valid, status, no_err, exists, allowed)
        (ap (λ p. update_reply env role_ids p.0) untouched, ap (λ p. p.1.accounts) untouched ∙ same)

  -- Without a database, and with every account under its own trimmed id, handleAccountUpdate of an
  -- id with blanks around it replies that there is no such account and leaves the accounts as they
  -- were, although the body decodes, an operator and the roles are granted, the id and the status
  -- are valid, and the look-up finds the account, which the operator may change.
  pub handle_account_update-untrimmed :
      (r : Request) (d : Decoded UpdateBody) (operator : AccountRecord) (role_ids : List String)
      (w w' w'' : World env)
      → IsKeyed w''.accounts
      → d.err ≡ none
      → require_account_manage_token env r d.body.operator_session_token 2251 2252 2258 w
        ≡ (granted operator, w')
      → clean_and_validate_roles env r d.body.role_ids 2255 2256 w' ≡ (granted role_ids, w'')
      → valid_record_id d.body.account_id ≡ true
      → trim_space d.body.account_id ≢ d.body.account_id
      → normalize_status d.body.status == "" ≡ false
      → (get_account_by_id env d.body.account_id w'').0.err ≡ none
      → (get_account_by_id env d.body.account_id w'').0.exists ≡ true
      → (get_account_by_id env d.body.account_id w'').0.acc.is_super_admin
          && not operator.is_super_admin
        ≡ false
      → ((handle_account_update env r d w).0 ≡ write_json 2254 null "账号不存在")
        × ((handle_account_update env r d w).1.accounts ≡ w''.accounts)
  unfolding handle_account_update on_some
  handle_account_update-untrimmed r d operator role_ids w w' w'' keyed no_err accepted cleaned valid
        padded status no_err' exists allowed =
      let (replied, kept) =
        update_checked-untrimmed operator d.body role_ids w'' keyed valid padded status no_err'
          exists allowed in
      let ends =
        granted-continues _ _ w w' operator accepted
        ∙ granted-continues _ _ w' w'' role_ids cleaned in
      rw no_err (ap (λ p. p.0) ends ∙ replied, ap (λ p. p.1.accounts) ends ∙ kept)
