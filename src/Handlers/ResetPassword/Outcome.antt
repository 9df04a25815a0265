-- ===== src/Handlers/ResetPassword/Outcome.antt =====
-- Every way in which `handleResetPassword` ends, where the plugin has no database.
use mathlib.Core.Bool.{not}
use omps_admin_plugin_accoun.Prelude.{
  String, ◌≡◌, refl, sym, subst, ◌∙◌, ap, false, ◌&&◌, none, some, inl, inr, arith, ◌==◌, not-false,
  Option-cases, if◌then◌else◌,
}
use omps_admin_plugin_accoun.Prelude.Int.{ℤ}
use omps_admin_plugin_accoun.Prelude.Text.{trim_space}
use omps_admin_plugin_accoun.Prelude.Dict.{Dict, lookup}
use omps_admin_plugin_accoun.Account.{AccountRecord, ok}
use omps_admin_plugin_accoun.Json.{Response}
use omps_admin_plugin_accoun.Platform.{Request, Decoded, Env, World}
use omps_admin_plugin_accoun.Platform.Ends.{Ends, ends_rules, accounts-unchanged}
use omps_admin_plugin_accoun.Storage.Lookup.{get_account_by_id}
use omps_admin_plugin_accoun.Storage.Changes.{with_password_hash, hash_password, reset_password}
use omps_admin_plugin_accoun.Storage.Frame.{get_account_by_id-Keeps}
use omps_admin_plugin_accoun.Storage.Found.{get_account_by_id-found}
use omps_admin_plugin_accoun.Storage.Effects.{
  IsKeyed, same_account, lookup-reset_password, reset_password-absent, reset_password-present,
}
use omps_admin_plugin_accoun.Access.{granted, require_account_manage_token}
use omps_admin_plugin_accoun.Access.Frame.{require_account_manage_token-Keeps}
use omps_admin_plugin_accoun.Access.Verdict.{Ends-guard, is_success, refused-is_success}
use omps_admin_plugin_accoun.Handlers.ResetPassword.{
  ResetBody, reset_reply, reset_checked, handle_reset_password,
}

module _ (env : Env) (memory : env.db ≡ none) where
  -- Of the accounts before to the reply and the state after, for an operator that was accepted.
  pub data ResetOutcome (operator : AccountRecord) (id password : String)
      (before : Dict AccountRecord) : Response → World env → Type 0 where
    rejected :
        {response : Response} {after : World env}
        → is_success response ≡ false
        → after.accounts ≡ before
        → ResetOutcome operator id password before response after
    reset :
        {after : World env} (acc : AccountRecord) (now : ℤ)
        → lookup id before ≡ some acc
        → acc.is_super_admin && not operator.is_super_admin ≡ false
        → ((k : String)
            → lookup k after.accounts ≡ (
                if id == k
                then some (with_password_hash acc (hash_password env password) now)
                else lookup k before))
        → ResetOutcome operator id password before
            (reset_reply env id
              (ok (some (with_password_hash acc (hash_password env password) now))))
            after

  -- `resetPassword` after the look-up has found `acc`, and the operator may change it.
  reset_permitted :
      (operator acc : AccountRecord) (id password : String) (w : World env)
      (before : Dict AccountRecord)
      → IsKeyed before
      → w.accounts ≡ before
      → lookup (trim_space id) before ≡ some acc
      → acc.is_super_admin && not operator.is_super_admin ≡ false
      → ResetOutcome operator id password before
          (reset_reply env id (reset_password env id password w).0)
          (reset_password env id password w).1
  reset_permitted operator acc id password w before keyed same here allowed =
      let keyed' : IsKeyed w.accounts = subst IsKeyed (sym same) keyed in
      elim (Option-cases (lookup id w.accounts)) [
        | inl absent ↦
            subst
              (λ result.
                ResetOutcome operator id password before (reset_reply env id result.0) result.1)
              (sym (reset_password-absent env memory id password w absent)) (rejected refl same)
        | inr (old, present) ↦
            subst
              (λ result.
                ResetOutcome operator id password before (reset_reply env id result)
                  (reset_password env id password w).1)
              (sym (reset_password-present env memory id password w old present))
              (reset old (env.now w.outside).0 (ap (lookup id) (sym same) ∙ present)
                (subst (λ a. a.is_super_admin && not operator.is_super_admin ≡ false)
                  (same_account before id old acc keyed (ap (lookup id) (sym same) ∙ present) here)
                  allowed)
                (λ k.
                  lookup-reset_password env memory id password k w keyed' old present
                  ∙ ap
                      (λ m.
                        if id == k
                        then some (
                            with_password_hash old (hash_password env password)
                              (env.now w.outside).0)
                        else lookup k m)
                      same))
      ]

  reset_checked-Outcome :
      (operator : AccountRecord) (b : ResetBody) (w : World env)
      → IsKeyed w.accounts
      → Ends
          (ResetOutcome operator b.account_id b.new_password w.accounts)
          (reset_checked env operator b)
          w
  unfolding reset_checked
  reset_checked-Outcome operator b w keyed =
      let found = (get_account_by_id env b.account_id w).0 in
      let start : w.accounts ≡ w.accounts = refl in
      let same : (get_account_by_id env b.account_id w).1.accounts ≡ w.accounts =
        accounts-unchanged _ w (get_account_by_id-Keeps env _ b.account_id) in
      let here : not found.exists ≡ false
          → lookup (trim_space b.account_id) w.accounts ≡ some found.acc =
        λ e. get_account_by_id-found env memory b.account_id w (not-false _ e) in
      let failed : false ≡ false = refl in search (ends_rules, rejected, reset_permitted) depth 12

  -- Of the reply and the state that the handler leaves.
  pub data HandlerOutcome (r : Request) (b : ResetBody) (w : World env) (response : Response)
      (after : World env) : Type 0 where
    unchanged :
        is_success response ≡ false
        → after.accounts ≡ w.accounts
        → HandlerOutcome r b w response after
    accepted :
        (operator : AccountRecord)
        → (require_account_manage_token env r b.operator_session_token 2261 2262 2267 w).0
          ≡ granted operator
        → ResetOutcome operator b.account_id b.new_password w.accounts response after
        → HandlerOutcome r b w response after

  reset_accepted :
      (r : Request) (b : ResetBody) (w w' : World env) (operator : AccountRecord)
      → IsKeyed w.accounts
      → w'.accounts ≡ w.accounts
      → (require_account_manage_token env r b.operator_session_token 2261 2262 2267 w).0
        ≡ granted operator
      → Ends (HandlerOutcome r b w) (reset_checked env operator b) w'
  reset_accepted r b w w' operator keyed same h = record {
    at = accepted operator h (
        subst
          (λ before.
            ResetOutcome operator b.account_id b.new_password before
              (reset_checked env operator b w').0 (reset_checked env operator b w').1)
          same (reset_checked-Outcome operator b w' (subst IsKeyed (sym same) keyed)).at);
  }

  -- Without a database, and with every account under its own trimmed id, handleResetPassword
  -- either replies with another status than 0 and leaves the accounts as they were, or was granted
  -- an operator and changed the password hash and the time of exactly the account asked for, to
  -- the hash of the new password; that account is no super administrator unless the operator is
  -- one.
  pub handle_reset_password-Outcome :
      (r : Request) (d : Decoded ResetBody) (w : World env)
      → IsKeyed w.accounts
      → HandlerOutcome r d.body w
          (handle_reset_password env r d w).0
          (handle_reset_password env r d w).1
  unfolding handle_reset_password
  handle_reset_password-Outcome r d w keyed =
      let token = d.body.operator_session_token in
      let w' = (require_account_manage_token env r token 2261 2262 2267 w).1 in
      let start : w.accounts ≡ w.accounts = refl in
      let same : w'.accounts ≡ w.accounts =
        accounts-unchanged _ w (require_account_manage_token-Keeps env _ r token 2261 2262 2267) in
      let failed : false ≡ false = refl in
      let refusal =
        refused-is_success env r token 2261 2262 2267 w (ground arith) (ground arith)
          (ground arith) in
      let all : Ends (HandlerOutcome r d.body w) (handle_reset_password env r d) w =
        search (ends_rules, Ends-guard, unchanged, refusal, reset_accepted) depth 12 in
      all.at
