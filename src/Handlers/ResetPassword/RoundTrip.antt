-- ===== src/Handlers/ResetPassword/RoundTrip.antt =====
-- A password that `handleResetPassword` sets is the one that `verifyPassword` then accepts.
use mathlib.Core.Bool.{not}
use omps_admin_plugin_accoun.Prelude.{
  String, ◌≡◌, refl, subst, sym, ◌∙◌, ap, true, false, ◌&&◌, none, some, arith, eq_iff,
}
use omps_admin_plugin_accoun.Prelude.Int.{ℤ}
use omps_admin_plugin_accoun.Prelude.Text.{trim_space}
use omps_admin_plugin_accoun.Prelude.Dict.{lookup}
use omps_admin_plugin_accoun.Prelude.Exec.{pure, ◌>>=◌, on_some}
use omps_admin_plugin_accoun.Account.{AccountRecord, ok}
use omps_admin_plugin_accoun.Json.{Response}
use omps_admin_plugin_accoun.Platform.{Request, Decoded, Env, World}
use omps_admin_plugin_accoun.Platform.Ends.{accounts-unchanged}
use omps_admin_plugin_accoun.Validation.{valid_record_id, valid_password}
use omps_admin_plugin_accoun.Storage.Changes.{with_password_hash, hash_password, verify_password}
use omps_admin_plugin_accoun.Storage.Lookup.{get_account_by_id}
use omps_admin_plugin_accoun.Storage.Frame.{get_account_by_id-Keeps}
use omps_admin_plugin_accoun.Storage.Found.{get_account_by_id-found}
use omps_admin_plugin_accoun.Storage.Effects.{
  IsKeyed, lookup-reset_password, reset_password-present,
}
use omps_admin_plugin_accoun.Access.{granted, require_account_manage_token}
use omps_admin_plugin_accoun.Access.Verdict.{granted-continues}
use omps_admin_plugin_accoun.Handlers.ResetPassword.{
  ResetBody, reset_reply, reset_checked, handle_reset_password,
}

module _ (env : Env) (memory : env.db ≡ none) where
  -- The reply is that of success, and the account now has the password.
  pub record HasPassword (id password : String) (acc : AccountRecord) (response : Response)
      (after : World env) : Type 0 where
    pub now : ℤ
    pub stored : AccountRecord
    pub changed : stored ≡ with_password_hash acc (hash_password env password) now
    pub replied : response ≡ reset_reply env id (ok (some stored))
    pub found : lookup id after.accounts ≡ some stored
    pub verified : verify_password env stored.password_hash password ≡ true

  reset_checked-HasPassword :
      (operator : AccountRecord) (b : ResetBody) (w : World env)
      → IsKeyed w.accounts
      → valid_record_id b.account_id ≡ true
      → trim_space b.account_id ≡ b.account_id
      → valid_password b.new_password ≡ true
      → (get_account_by_id env b.account_id w).0.err ≡ none
      → (get_account_by_id env b.account_id w).0.exists ≡ true
      → (get_account_by_id env b.account_id w).0.acc.is_super_admin && not operator.is_super_admin
        ≡ false
      → HasPassword b.account_id b.new_password
          (get_account_by_id env b.account_id w).0.acc
          (reset_checked env operator b w).0
          (reset_checked env operator b w).1
  unfolding reset_checked on_some ◌>>=◌ pure verify_password
  reset_checked-HasPassword operator b w keyed valid trimmed password no_err exists allowed =
      let after = (get_account_by_id env b.account_id w).1 in
      let acc = (get_account_by_id env b.account_id w).0.acc in
      let same : after.accounts ≡ w.accounts =
        accounts-unchanged _ w (get_account_by_id-Keeps env _ b.account_id) in
      let here : lookup b.account_id after.accounts ≡ some acc =
        ap (lookup b.account_id) same
        ∙ subst (λ k. lookup k w.accounts ≡ some acc) trimmed
            (get_account_by_id-found env memory b.account_id w exists) in
      let itself = (eq_iff b.account_id b.account_id).1 refl in
      let stored =
        lookup-reset_password env memory b.account_id b.new_password b.account_id after
          (subst IsKeyed (sym same) keyed) acc here in
      rw (valid, password, no_err, exists, allowed)
        (record {
          now = (env.now after.outside).0;
          stored =
              with_password_hash acc (hash_password env b.new_password) (env.now after.outside).0;
          changed = refl;
          replied =
              ap (reset_reply env b.account_id)
                (reset_password-present env memory b.account_id b.new_password after acc here);
          found = stored ∙ ground (arith, itself);
          verified = (eq_iff _ _).1 refl;
        })

  -- Without a database, and with every account under its own trimmed id, handleResetPassword
  -- replies with status 0, and verifyPassword then accepts the new password for the account
  -- stored, where the body decodes, an operator is granted, the id is valid and has no blanks
  -- around it, the password is valid, and the look-up has no error and finds an account that is no
  -- super administrator unless the operator is one.
  pub handle_reset_password-verify_password :
      (r : Request) (d : Decoded ResetBody) (operator : AccountRecord) (w w' : World env)
      → IsKeyed w'.accounts
      → d.err ≡ none
      → require_account_manage_token env r d.body.operator_session_token 2261 2262 2267 w
        ≡ (granted operator, w')
      → valid_record_id d.body.account_id ≡ true
      → trim_space d.body.account_id ≡ d.body.account_id
      → valid_password d.body.new_password ≡ true
      → (get_account_by_id env d.body.account_id w').0.err ≡ none
      → (get_account_by_id env d.body.account_id w').0.exists ≡ true
      → (get_account_by_id env d.body.account_id w').0.acc.is_super_admin
          && not operator.is_super_admin
        ≡ false
      → HasPassword d.body.account_id d.body.new_password
          (get_account_by_id env d.body.account_id w').0.acc
          (handle_reset_password env r d w).0
          (handle_reset_password env r d w).1
  unfolding handle_reset_password on_some
  handle_reset_password-verify_password r d operator w w' keyed no_err accepted valid trimmed
        password no_err' exists allowed =
      let acc = (get_account_by_id env d.body.account_id w').0.acc in
      rw no_err (
        subst (λ result. HasPassword d.body.account_id d.body.new_password acc result.0 result.1)
          (sym (granted-continues _ _ w w' operator accepted))
          (reset_checked-HasPassword operator d.body w' keyed valid trimmed password no_err' exists
            allowed))
