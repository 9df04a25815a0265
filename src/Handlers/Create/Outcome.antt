-- ===== src/Handlers/Create/Outcome.antt =====
-- Every way in which `handleAccountCreate` ends, where the plugin has no database.
use omps_admin_plugin_accoun.Prelude.{
  String, ◌≡◌, refl, sym, subst, ◌∙◌, ap, Bool, true, false, ◌||◌, none, some, List, arith, ◌==◌,
  if◌then◌else◌,
}
use mathlib.Core.Bool.{not}
use omps_admin_plugin_accoun.Prelude.Text.{trim_space}
use omps_admin_plugin_accoun.Prelude.Dict.{Dict, lookup}
use omps_admin_plugin_accoun.Account.{AccountRecord}
use omps_admin_plugin_accoun.Json.{Response, write_json}
use omps_admin_plugin_accoun.Platform.{Request, Decoded, Env, World}
use omps_admin_plugin_accoun.Platform.Ends.{Ends, ends_rules, accounts-unchanged}
use omps_admin_plugin_accoun.Validation.{valid_account, valid_password, normalize_status}
use omps_admin_plugin_accoun.Storage.Lookup.{get_account_by_account}
use omps_admin_plugin_accoun.Storage.Changes.{create_account, account_to_response}
use omps_admin_plugin_accoun.Handlers.Payloads.{account_json}
use omps_admin_plugin_accoun.Storage.Frame.{get_account_by_account-Keeps}
use omps_admin_plugin_accoun.Storage.Created.{
  RangesAll, drawn, created, create_account-result, lookup-create_account, roles-create_account,
  get_account_by_account-missing,
}
use omps_admin_plugin_accoun.Access.{
  granted, require_account_manage_token, clean_and_validate_roles,
}
use omps_admin_plugin_accoun.Access.Frame.{
  require_account_manage_token-Keeps, clean_and_validate_roles-Keeps,
}
use omps_admin_plugin_accoun.Access.Verdict.{Ends-guard, is_success, refused-is_success}
use omps_admin_plugin_accoun.Access.Cleaned.{unclean-is_success}
use omps_admin_plugin_accoun.Handlers.Create.{
  CreateBody, create_reply, create_checked, handle_account_create,
}

-- What a request must hold for an account to be created.
abbrev pub is_creatable : CreateBody → Bool
is_creatable b = not (
    not (valid_account (trim_space b.account))
    || not (valid_password b.password)
    || normalize_status b.status == "")

-- The account that `createAccount` writes for a request, in a given state.
abbrev pub created_for : {env : Env} → CreateBody → World env → AccountRecord
created_for {env} b w = created env (trim_space b.account) b.password (normalize_status b.status) w

module _ (env : Env) (memory : env.db ≡ none) (ranges : RangesAll env) where
  -- Of the accounts before to the reply and the state after, for roles that were accepted. `w` is the
  -- state in which the id is drawn.
  pub data CreateOutcome (b : CreateBody) (role_ids : List String) (before : Dict AccountRecord)
      : Response → World env → Type 0 where
    rejected :
        {response : Response} {after : World env}
        → is_success response ≡ false
        → after.accounts ≡ before
        → CreateOutcome b role_ids before response after
    new :
        {after : World env} (w : World env)
        → is_creatable b ≡ true
        → ((k : String) (acc : AccountRecord)
            → lookup k before ≡ some acc
            → acc.username == trim_space b.account ≡ false)
        → ((k : String)
            → lookup k after.accounts
              ≡ (if (drawn env w).0 == k then some (created_for b w) else lookup k before))
        → lookup (drawn env w).0 after.roles ≡ some role_ids
        → CreateOutcome b role_ids before
            (write_json 0 (account_json (account_to_response env (created_for b w) role_ids)) "ok")
            after

  create_permitted :
      (b : CreateBody) (role_ids : List String) (w : World env) (before : Dict AccountRecord)
      → w.accounts ≡ before
      → not (valid_account (trim_space b.account))
          || not (valid_password b.password)
          || normalize_status b.status == ""
        ≡ false
      → ((k : String) (acc : AccountRecord)
          → lookup k before ≡ some acc
          → acc.username == trim_space b.account ≡ false)
      → CreateOutcome b role_ids before
          (create_reply env role_ids
            (create_account env
              (trim_space b.account)
              b.password
              (normalize_status b.status)
              role_ids
              w).0)
          (create_account env
            (trim_space b.account)
            b.password
            (normalize_status b.status)
            role_ids
            w).1
  create_permitted b role_ids w before same valid unused =
      let account = trim_space b.account in
      let status = normalize_status b.status in
      subst
        (λ result.
          CreateOutcome b role_ids before (create_reply env role_ids result)
            (create_account env account b.password status role_ids w).1)
        (sym (create_account-result env memory account b.password status role_ids w))
        (new w (ap not valid) unused
          (λ k.
            lookup-create_account env memory account b.password status role_ids w k
            ∙ ap (λ m. if (drawn env w).0 == k then some (created_for b w) else lookup k m) same)
          (roles-create_account env memory account b.password status role_ids w))

  create_checked-Outcome :
      (b : CreateBody) (role_ids : List String) (w : World env)
      → Ends (CreateOutcome b role_ids w.accounts) (create_checked env b role_ids) w
  unfolding create_checked
  create_checked-Outcome b role_ids w =
      let found = (get_account_by_account env (trim_space b.account) w).0 in
      let start : w.accounts ≡ w.accounts = refl in
      let same : (get_account_by_account env (trim_space b.account) w).1.accounts ≡ w.accounts =
        accounts-unchanged _ w (get_account_by_account-Keeps env _ (trim_space b.account)) in
      let unused = get_account_by_account-missing env memory ranges (trim_space b.account) w in
      let failed : false ≡ false = refl in search (ends_rules, rejected, create_permitted) depth 12

  -- Of the reply and the state that the handler leaves.
  pub data HandlerOutcome (r : Request) (b : CreateBody) (w : World env) (response : Response)
      (after : World env) : Type 0 where
    unchanged :
        is_success response ≡ false
        → after.accounts ≡ w.accounts
        → HandlerOutcome r b w response after
    accepted :
        (operator : AccountRecord) (role_ids : List String)
        → (require_account_manage_token env r b.operator_session_token 2221 2222 2227 w).0
          ≡ granted operator
        → (clean_and_validate_roles env r b.role_ids 2225 2226
            (require_account_manage_token env r b.operator_session_token 2221 2222 2227 w).1).0
          ≡ granted role_ids
        → CreateOutcome b role_ids w.accounts response after
        → HandlerOutcome r b w response after

  -- Without a database, and if ranging over a map comes by every entry, handleAccountCreate either
  -- replies with another status than 0 and leaves the accounts as they were, or was granted an
  -- operator and one checked role, found the account name, password and status valid and the name
  -- unused, and wrote exactly one account under a drawn id, with the role beside it, and replies
  -- with that account.
  pub handle_account_create-Outcome :
      (r : Request) (d : Decoded CreateBody) (w : World env)
      → HandlerOutcome r d.body w
          (handle_account_create env r d w).0
          (handle_account_create env r d w).1
  unfolding handle_account_create
  handle_account_create-Outcome r d w =
      let token = d.body.operator_session_token in
      let w' = (require_account_manage_token env r token 2221 2222 2227 w).1 in
      let w'' = (clean_and_validate_roles env r d.body.role_ids 2225 2226 w').1 in
      let start : w.accounts ≡ w.accounts = refl in
      let same : w'.accounts ≡ w.accounts =
        accounts-unchanged _ w (require_account_manage_token-Keeps env _ r token 2221 2222 2227) in
      let same' : w''.accounts ≡ w.accounts =
        accounts-unchanged _ w' (clean_and_validate_roles-Keeps env r d.body.role_ids 2225 2226)
        ∙ same in
      let failed : false ≡ false = refl in
      let refusal =
        refused-is_success env r token 2221 2222 2227 w (ground arith) (ground arith)
          (ground arith) in
      let unclean =
        unclean-is_success env r 2225 2226 w' (ground arith) (ground arith) d.body.role_ids in
      let go : (operator : AccountRecord)
          → (require_account_manage_token env r token 2221 2222 2227 w).0 ≡ granted operator
          → (role_ids : List String)
          → (clean_and_validate_roles env r d.body.role_ids 2225 2226 w').0 ≡ granted role_ids
          → Ends (HandlerOutcome r d.body w) (create_checked env d.body role_ids) w'' =
        λ operator g role_ids g'. record {
          at = accepted operator role_ids g g' (
              subst
                (λ before.
                  CreateOutcome d.body role_ids before (create_checked env d.body role_ids w'').0
                    (create_checked env d.body role_ids w'').1)
                same' (create_checked-Outcome d.body role_ids w'').at);
        } in
      let all : Ends (HandlerOutcome r d.body w) (handle_account_create env r d) w =
        search (ends_rules, Ends-guard, unchanged, refusal, unclean, go) depth 12 in
      all.at
