-- ===== src/Handlers/Update/Outcome.antt =====
-- Every way in which `handleAccountUpdate` ends, where the plugin has no database.
use mathlib.Core.Bool.{not}
use omps_admin_plugin_accoun.Prelude.{
  String, ◌≡◌, refl, sym, subst, ◌∙◌, ap, false, ◌&&◌, none, some, List, inl, inr, arith, ◌==◌,
  eq_iff, not-false, Option-cases, if◌then◌else◌,
}
use omps_admin_plugin_accoun.Prelude.Int.{ℤ}
use omps_admin_plugin_accoun.Prelude.Text.{trim_space}
use omps_admin_plugin_accoun.Prelude.Dict.{Dict, lookup}
use omps_admin_plugin_accoun.Account.{AccountRecord}
use omps_admin_plugin_accoun.Json.{Response, write_json}
use omps_admin_plugin_accoun.Platform.{Request, Decoded, Env, World}
use omps_admin_plugin_accoun.Platform.Ends.{Ends, ends_rules, accounts-unchanged}
use omps_admin_plugin_accoun.Validation.{normalize_status}
use omps_admin_plugin_accoun.Storage.Lookup.{get_account_by_id}
use omps_admin_plugin_accoun.Storage.Changes.{with_status, update_account, account_to_response}
use omps_admin_plugin_accoun.Storage.Frame.{get_account_by_id-Keeps}
use omps_admin_plugin_accoun.Storage.Found.{get_account_by_id-found}
use omps_admin_plugin_accoun.Storage.Effects.{
  IsKeyed, same_account, lookup-update_account, roles-update_account, update_account-absent,
  update_account-present,
}
use omps_admin_plugin_accoun.Access.{
  granted, require_account_manage_token, clean_and_validate_roles,
}
use omps_admin_plugin_accoun.Access.Frame.{
  require_account_manage_token-Keeps, clean_and_validate_roles-Keeps,
}
use omps_admin_plugin_accoun.Access.Verdict.{Ends-guard, is_success, refused-is_success}
use omps_admin_plugin_accoun.Access.Cleaned.{unclean-is_success}
use omps_admin_plugin_accoun.Handlers.Payloads.{account_json}
use omps_admin_plugin_accoun.Handlers.Update.{
  UpdateBody, update_reply, update_checked, handle_account_update,
}

module _ (env : Env) (memory : env.db ≡ none) where
  -- Of the accounts before to the reply and the state after, for an operator and roles that were
  -- accepted.
  pub data UpdateOutcome (operator : AccountRecord) (id status : String) (role_ids : List String)
      (before : Dict AccountRecord) : Response → World env → Type 0 where
    rejected :
        {response : Response} {after : World env}
        → is_success response ≡ false
        → after.accounts ≡ before
        → UpdateOutcome operator id status role_ids before response after
    updated :
        {after : World env} (acc : AccountRecord) (now : ℤ)
        → lookup id before ≡ some acc
        → acc.is_super_admin && not operator.is_super_admin ≡ false
        → ((k : String)
            → lookup k after.accounts
              ≡ (if id == k then some (with_status acc status now) else lookup k before))
        → lookup id after.roles ≡ some role_ids
        → UpdateOutcome operator id status role_ids before
            (write_json 0
              (account_json (account_to_response env (with_status acc status now) role_ids))
              "ok")
            after

  -- `updateAccount` after the look-up has found `acc`, and the operator may change it.
  update_permitted :
      (operator acc : AccountRecord) (id status : String) (role_ids : List String) (w : World env)
      (before : Dict AccountRecord)
      → IsKeyed before
      → w.accounts ≡ before
      → lookup (trim_space id) before ≡ some acc
      → acc.is_super_admin && not operator.is_super_admin ≡ false
      → UpdateOutcome operator id status role_ids before
          (update_reply env role_ids (update_account env id status role_ids w).0)
          (update_account env id status role_ids w).1
  update_permitted operator acc id status role_ids w before keyed same here allowed =
      let keyed' : IsKeyed w.accounts = subst IsKeyed (sym same) keyed in
      elim (Option-cases (lookup id w.accounts)) [
        | inl absent ↦
            subst
              (λ result.
                UpdateOutcome operator id status role_ids before
                  (update_reply env role_ids result.0) result.1)
              (sym (update_account-absent env memory id status role_ids w absent))
              (rejected refl same)
        | inr (old, present) ↦
            subst
              (λ result.
                UpdateOutcome operator id status role_ids before (update_reply env role_ids result)
                  (update_account env id status role_ids w).1)
              (sym (update_account-present env memory id status role_ids w old present))
              (updated old (env.now w.outside).0 (ap (lookup id) (sym same) ∙ present)
                (subst (λ a. a.is_super_admin && not operator.is_super_admin ≡ false)
                  (same_account before id old acc keyed (ap (lookup id) (sym same) ∙ present) here)
                  allowed)
                (λ k.
                  lookup-update_account env memory id status k role_ids w keyed' old present
                  ∙ ap
                      (λ m.
                        if id == k
                        then some (with_status old status (env.now w.outside).0)
                        else lookup k m)
                      same)
                (ground (
                  arith,
                  eq_iff id id,
                  roles-update_account env memory id status id role_ids w keyed' old present,
                )))
      ]

  update_checked-Outcome :
      (operator : AccountRecord) (b : UpdateBody) (role_ids : List String) (w : World env)
      → IsKeyed w.accounts
      → Ends
          (UpdateOutcome operator b.account_id (normalize_status b.status) role_ids w.accounts)
          (update_checked env operator b role_ids)
          w
  unfolding update_checked
  update_checked-Outcome operator b role_ids w keyed =
      let found = (get_account_by_id env b.account_id w).0 in
      let start : w.accounts ≡ w.accounts = refl in
      let same : (get_account_by_id env b.account_id w).1.accounts ≡ w.accounts =
        accounts-unchanged _ w (get_account_by_id-Keeps env _ b.account_id) in
      let here : not found.exists ≡ false
          → lookup (trim_space b.account_id) w.accounts ≡ some found.acc =
        λ e. get_account_by_id-found env memory b.account_id w (not-false _ e) in
      let failed : false ≡ false = refl in search (ends_rules, rejected, update_permitted) depth 12

  -- Of the reply and the state that the handler leaves.
  pub data HandlerOutcome (r : Request) (b : UpdateBody) (w : World env) (response : Response)
      (after : World env) : Type 0 where
    unchanged :
        is_success response ≡ false
        → after.accounts ≡ w.accounts
        → HandlerOutcome r b w response after
    accepted :
        (operator : AccountRecord) (role_ids : List String)
        → (require_account_manage_token env r b.operator_session_token 2251 2252 2258 w).0
          ≡ granted operator
        → (clean_and_validate_roles env r b.role_ids 2255 2256
            (require_account_manage_token env r b.operator_session_token 2251 2252 2258 w).1).0
          ≡ granted role_ids
        → UpdateOutcome operator b.account_id
            (normalize_status b.status)
            role_ids
            w.accounts
            response
            after
        → HandlerOutcome r b w response after

  -- Without a database, and with every account under its own trimmed id, handleAccountUpdate
  -- either replies with another status than 0 and leaves the accounts as they were, or was granted
  -- an operator and one checked role and set the status and the time of exactly the account asked
  -- for, which is no super administrator unless the operator is one, bound it to that role, and
  -- replies with it.
  pub handle_account_update-Outcome :
      (r : Request) (d : Decoded UpdateBody) (w : World env)
      → IsKeyed w.accounts
      → HandlerOutcome r d.body w
          (handle_account_update env r d w).0
          (handle_account_update env r d w).1
  unfolding handle_account_update
  handle_account_update-Outcome r d w keyed =
      let token = d.body.operator_session_token in
      let w' = (require_account_manage_token env r token 2251 2252 2258 w).1 in
      let w'' = (clean_and_validate_roles env r d.body.role_ids 2255 2256 w').1 in
      let start : w.accounts ≡ w.accounts = refl in
      let same : w'.accounts ≡ w.accounts =
        accounts-unchanged _ w (require_account_manage_token-Keeps env _ r token 2251 2252 2258) in
      let same' : w''.accounts ≡ w.accounts =
        accounts-unchanged _ w' (clean_and_validate_roles-Keeps env r d.body.role_ids 2255 2256)
        ∙ same in
      let failed : false ≡ false = refl in
      let refusal =
        refused-is_success env r token 2251 2252 2258 w (ground arith) (ground arith)
          (ground arith) in
      let unclean =
        unclean-is_success env r 2255 2256 w' (ground arith) (ground arith) d.body.role_ids in
      let go : (operator : AccountRecord)
          → (require_account_manage_token env r token 2251 2252 2258 w).0 ≡ granted operator
          → (role_ids : List String)
          → (clean_and_validate_roles env r d.body.role_ids 2255 2256 w').0 ≡ granted role_ids
          → Ends (HandlerOutcome r d.body w) (update_checked env operator d.body role_ids) w'' =
        λ operator g role_ids g'. record {
          at = accepted operator role_ids g g' (
              subst
                (λ before.
                  UpdateOutcome operator d.body.account_id (normalize_status d.body.status) role_ids
                    before (update_checked env operator d.body role_ids w'').0
                    (update_checked env operator d.body role_ids w'').1)
                same'
                (update_checked-Outcome operator d.body role_ids w''
                  (subst IsKeyed (sym same') keyed)).at);
        } in
      let all : Ends (HandlerOutcome r d.body w) (handle_account_update env r d) w =
        search (ends_rules, Ends-guard, unchanged, refusal, unclean, go) depth 12 in
      all.at
