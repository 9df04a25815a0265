-- ===== src/Handlers/Delete/Outcome.antt =====
-- Every way in which `handleAccountDelete` ends, where the plugin has no database.
use mathlib.Core.Bool.{not}
use omps_admin_plugin_accoun.Prelude.{
  String, ◌≡◌, refl, sym, subst, ◌∙◌, ap, false, ◌&&◌, none, some, arith, ◌==◌, not-false,
  if◌then◌else◌,
}
use omps_admin_plugin_accoun.Prelude.Text.{trim_space}
use omps_admin_plugin_accoun.Prelude.Text.Trim.{trim_space-idempotent}
use omps_admin_plugin_accoun.Prelude.Dict.{Dict, lookup}
use omps_admin_plugin_accoun.Account.{AccountRecord}
use omps_admin_plugin_accoun.Json.{null, Response, write_json}
use omps_admin_plugin_accoun.Platform.{Request, Decoded, Env, World}
use omps_admin_plugin_accoun.Platform.Ends.{Ends, ends_rules, accounts-unchanged}
use omps_admin_plugin_accoun.Storage.Lookup.{get_account_by_id}
use omps_admin_plugin_accoun.Storage.Changes.{delete_account}
use omps_admin_plugin_accoun.Storage.Frame.{get_account_by_id-Keeps}
use omps_admin_plugin_accoun.Storage.Found.{get_account_by_id-found}
use omps_admin_plugin_accoun.Storage.Effects.{delete_account-result, lookup-delete_account}
use omps_admin_plugin_accoun.Access.{granted, require_account_manage_token}
use omps_admin_plugin_accoun.Access.Frame.{require_account_manage_token-Keeps}
use omps_admin_plugin_accoun.Access.Verdict.{Ends-guard, is_success, refused-is_success}
use omps_admin_plugin_accoun.Handlers.Delete.{
  DeleteBody, delete_reply, delete_checked, handle_account_delete,
}

module _ (env : Env) (memory : env.db ≡ none) where
  -- Of the accounts before to the reply and the accounts after, for an operator that was accepted.
  pub data DeleteOutcome (operator : AccountRecord) (id : String) (before : Dict AccountRecord)
      : Response → World env → Type 0 where
    rejected :
        {response : Response} {after : World env}
        → is_success response ≡ false
        → after.accounts ≡ before
        → DeleteOutcome operator id before response after
    deleted :
        {after : World env} (acc : AccountRecord)
        → lookup id before ≡ some acc
        → acc.id == operator.id ≡ false
        → acc.is_super_admin && not operator.is_super_admin ≡ false
        → ((k : String) → lookup k after.accounts ≡ (if id == k then none else lookup k before))
        → DeleteOutcome operator id before (write_json 0 null "ok") after

  -- `deleteAccount` of an account that is there.
  pub delete_found-result :
      (id : String) (w : World env) (acc : AccountRecord)
      → trim_space id ≡ id
      → lookup id w.accounts ≡ some acc
      → delete_reply (delete_account env id w).0 ≡ write_json 0 null "ok"
  delete_found-result id w acc t h = ground (arith, delete_account-result env memory id w)

  delete_found-accounts :
      (id : String) (w : World env) (k : String)
      → trim_space id ≡ id
      → lookup k (delete_account env id w).1.accounts
        ≡ (if id == k then none else lookup k w.accounts)
  delete_found-accounts id w k t = ground (arith, lookup-delete_account env memory id k w)

  delete_permitted :
      (operator acc : AccountRecord) (id : String) (w : World env) (before : Dict AccountRecord)
      → w.accounts ≡ before
      → trim_space id ≡ id
      → lookup id before ≡ some acc
      → acc.id == operator.id ≡ false
      → acc.is_super_admin && not operator.is_super_admin ≡ false
      → DeleteOutcome operator id before
          (delete_reply (delete_account env id w).0)
          (delete_account env id w).1
  delete_permitted operator acc id w before same trimmed here other allowed =
      subst (λ reply. DeleteOutcome operator id before reply (delete_account env id w).1)
        (sym (delete_found-result id w acc trimmed (ap (lookup id) same ∙ here)))
        (deleted acc here other allowed λ k.
          delete_found-accounts id w k trimmed
          ∙ ap (λ m. if id == k then none else lookup k m) same)

  delete_checked-Outcome :
      (operator : AccountRecord) (raw_id : String) (w : World env)
      → Ends
          (DeleteOutcome operator (trim_space raw_id) w.accounts)
          (delete_checked env operator raw_id)
          w
  unfolding delete_checked
  delete_checked-Outcome operator raw_id w =
      let id = trim_space raw_id in
      let found = (get_account_by_id env id w).0 in
      let start : w.accounts ≡ w.accounts = refl in
      let same : (get_account_by_id env id w).1.accounts ≡ w.accounts =
        accounts-unchanged _ w (get_account_by_id-Keeps env _ id) in
      let trimmed : trim_space id ≡ id = trim_space-idempotent raw_id in
      let here : not found.exists ≡ false → lookup id w.accounts ≡ some found.acc = λ e.
        subst (λ k. lookup k w.accounts ≡ some found.acc) trimmed
          (get_account_by_id-found env memory id w (not-false _ e)) in
      let failed : false ≡ false = refl in search (ends_rules, rejected, delete_permitted) depth 12

  -- Of the reply and the world that the handler leaves: a reply with another status than 0 leaves the
  -- accounts as they were; one with status 0 was granted to an operator, and removed one account.
  pub data HandlerOutcome (r : Request) (b : DeleteBody) (w : World env) (response : Response)
      (after : World env) : Type 0 where
    unchanged :
        is_success response ≡ false
        → after.accounts ≡ w.accounts
        → HandlerOutcome r b w response after
    accepted :
        (operator : AccountRecord)
        → (require_account_manage_token env r b.operator_session_token 2291 2292 2297 w).0
          ≡ granted operator
        → DeleteOutcome operator (trim_space b.account_id) w.accounts response after
        → HandlerOutcome r b w response after

  delete_accepted :
      (r : Request) (b : DeleteBody) (w w' : World env) (operator : AccountRecord)
      → w'.accounts ≡ w.accounts
      → (require_account_manage_token env r b.operator_session_token 2291 2292 2297 w).0
        ≡ granted operator
      → Ends (HandlerOutcome r b w) (delete_checked env operator b.account_id) w'
  delete_accepted r b w w' operator same h = record {
    at = accepted operator h (
        subst
          (λ before.
            DeleteOutcome operator (trim_space b.account_id) before
              (delete_checked env operator b.account_id w').0
              (delete_checked env operator b.account_id w').1)
          same (delete_checked-Outcome operator b.account_id w').at);
  }

  -- Without a database, handleAccountDelete either leaves the accounts as they were and replies
  -- with another status than 0, or was granted an operator and removed exactly the account asked
  -- for, which was there, is not the operator's own, and is no super administrator unless the
  -- operator is one.
  pub handle_account_delete-Outcome :
      (r : Request) (d : Decoded DeleteBody) (w : World env)
      → HandlerOutcome r d.body w
          (handle_account_delete env r d w).0
          (handle_account_delete env r d w).1
  unfolding handle_account_delete
  handle_account_delete-Outcome r d w =
      let token = d.body.operator_session_token in
      let w' = (require_account_manage_token env r token 2291 2292 2297 w).1 in
      let same : w'.accounts ≡ w.accounts =
        accounts-unchanged _ w (require_account_manage_token-Keeps env _ r token 2291 2292 2297) in
      let start : w.accounts ≡ w.accounts = refl in
      let failed : false ≡ false = refl in
      let refusal =
        refused-is_success env r token 2291 2292 2297 w (ground arith) (ground arith)
          (ground arith) in
      let go : Ends (HandlerOutcome r d.body w) (handle_account_delete env r d) w =
        search (ends_rules, Ends-guard, unchanged, refusal, delete_accepted) depth 12 in
      go.at
