-- ===== src/Handlers/Create/Success.antt =====
-- `handleAccountCreate` does what it is asked where nothing speaks against it.
use mathlib.Core.Bool.{not}
use omps_admin_plugin_accoun.Prelude.{
  String, ◌≡◌, sym, subst, ◌∙◌, ap, false, ◌||◌, none, some, List, ◌==◌, if◌then◌else◌,
}
use omps_admin_plugin_accoun.Prelude.Dict.{lookup}
use omps_admin_plugin_accoun.Prelude.Text.{trim_space}
use omps_admin_plugin_accoun.Prelude.Exec.{pure, ◌>>=◌, on_some}
use omps_admin_plugin_accoun.Account.{AccountRecord}
use omps_admin_plugin_accoun.Platform.{Request, Decoded, Env, World}
use omps_admin_plugin_accoun.Validation.{valid_account, valid_password, normalize_status}
use omps_admin_plugin_accoun.Storage.Lookup.{get_account_by_account}
use omps_admin_plugin_accoun.Storage.Created.{
  drawn, create_account-result, lookup-create_account, roles-create_account,
}
use omps_admin_plugin_accoun.Storage.Changes.{create_account, account_to_response}
use omps_admin_plugin_accoun.Json.{Response, write_json}
use omps_admin_plugin_accoun.Handlers.Payloads.{account_json}
use omps_admin_plugin_accoun.Access.{
  granted, require_account_manage_token, clean_and_validate_roles,
}
use omps_admin_plugin_accoun.Access.Verdict.{granted-continues}
use omps_admin_plugin_accoun.Handlers.Create.{
  CreateBody, create_reply, create_checked, handle_account_create,
}
use omps_admin_plugin_accoun.Handlers.Create.Outcome.{created_for}

module _ (env : Env) (memory : env.db ≡ none) where
  -- The reply and the state after a creation: the account was written under the id that was drawn,
  -- and nothing under any other, the roles beside it, and the reply has status 0 and the account.
  -- `w` is the state in which the id is drawn.
  pub record IsCreated (b : CreateBody) (role_ids : List String) (w : World env)
      (done : Response × World env) : Type 0 where
    pub reply :
        done.0
        ≡ write_json 0 (account_json (account_to_response env (created_for b w) role_ids)) "ok"
    pub written :
        (k : String)
        → lookup k done.1.accounts
          ≡ (if (drawn env w).0 == k then some (created_for b w) else lookup k w.accounts)
    pub roles : lookup (drawn env w).0 done.1.roles ≡ some role_ids

  create_account-IsCreated :
      (b : CreateBody) (role_ids : List String) (w : World env)
      → IsCreated b role_ids w (
          (create_account env (trim_space b.account) b.password (normalize_status b.status) role_ids
              >>= λ created. pure (create_reply env role_ids created))
            w)
  unfolding ◌>>=◌ pure
  create_account-IsCreated b role_ids w =
      let account = trim_space b.account in
      let status = normalize_status b.status in
      record {
        reply =
            ap (create_reply env role_ids)
              (create_account-result env memory account b.password status role_ids w);
        written = lookup-create_account env memory account b.password status role_ids w;
        roles = roles-create_account env memory account b.password status role_ids w;
      }

  create_checked-IsCreated :
      (b : CreateBody) (role_ids : List String) (w : World env)
      → not (valid_account (trim_space b.account))
          || not (valid_password b.password)
          || normalize_status b.status == ""
        ≡ false
      → (get_account_by_account env (trim_space b.account) w).0.err ≡ none
      → (get_account_by_account env (trim_space b.account) w).0.exists ≡ false
      → IsCreated b role_ids
          (get_account_by_account env (trim_space b.account) w).1
          (create_checked env b role_ids w)
  unfolding create_checked on_some ◌>>=◌ pure
  create_checked-IsCreated b role_ids w valid no_err unused =
      rw (valid, no_err, unused)
        (create_account-IsCreated b role_ids
          (get_account_by_account env (trim_space b.account) w).1)

  -- Without a database, handleAccountCreate writes the account of the request under a drawn id,
  -- and nothing under another, with the roles beside it, and replies with status 0 and that
  -- account, where the body decodes, an operator and the roles are granted, the trimmed name, the
  -- password and the status are valid, and the look-up of the name has no error and finds no
  -- account.
  pub handle_account_create-succeeds :
      (r : Request) (d : Decoded CreateBody) (operator : AccountRecord) (role_ids : List String)
      (w w' w'' : World env)
      → d.err ≡ none
      → require_account_manage_token env r d.body.operator_session_token 2221 2222 2227 w
        ≡ (granted operator, w')
      → clean_and_validate_roles env r d.body.role_ids 2225 2226 w' ≡ (granted role_ids, w'')
      → not (valid_account (trim_space d.body.account))
          || not (valid_password d.body.password)
          || normalize_status d.body.status == ""
        ≡ false
      → (get_account_by_account env (trim_space d.body.account) w'').0.err ≡ none
      → (get_account_by_account env (trim_space d.body.account) w'').0.exists ≡ false
      → IsCreated d.body role_ids
          (get_account_by_account env (trim_space d.body.account) w'').1
          (handle_account_create env r d w)
  unfolding handle_account_create on_some
  handle_account_create-succeeds r d operator role_ids w w' w'' no_err accepted cleaned valid
        no_err' unused =
      let step : handle_account_create env r d w ≡ create_checked env d.body role_ids w'' =
        rw no_err (
          granted-continues _ _ w w' operator accepted
          ∙ granted-continues _ _ w' w'' role_ids cleaned) in
      subst
        (IsCreated d.body role_ids (get_account_by_account env (trim_space d.body.account) w'').1)
        (sym step) (create_checked-IsCreated d.body role_ids w'' valid no_err' unused)
