-- ===== src/Handlers/Invariants.antt =====
-- What every handler that changes accounts keeps true of them, where the plugin has no database: each
-- account stands under its own id, and no two have the same user name.
use omps_admin_plugin_accoun.Prelude.{
  String, ◌≡◌, refl, sym, subst, none, some, List, arith, ◌==◌, eq_iff, if◌then◌else◌,
}
use omps_admin_plugin_accoun.Prelude.Text.{trim_space}
use omps_admin_plugin_accoun.Prelude.Dict.{Dict, lookup}
use omps_admin_plugin_accoun.Account.{AccountRecord}
use omps_admin_plugin_accoun.Json.{Response}
use omps_admin_plugin_accoun.Platform.{Request, Decoded, Env, World, call}
use omps_admin_plugin_accoun.Tokens.Short.{trim_space-new_short_id}
use omps_admin_plugin_accoun.Storage.Effects.{IsKeyed}
use omps_admin_plugin_accoun.Storage.Created.{RangesAll, drawn}
use omps_admin_plugin_accoun.Handlers.Create.{CreateBody, handle_account_create}
use omps_admin_plugin_accoun.Handlers.Create.Outcome as Create
use omps_admin_plugin_accoun.Handlers.Update.{UpdateBody, handle_account_update}
use omps_admin_plugin_accoun.Handlers.Update.Outcome as Update
use omps_admin_plugin_accoun.Handlers.ResetPassword.{ResetBody, handle_reset_password}
use omps_admin_plugin_accoun.Handlers.ResetPassword.Outcome as Reset
use omps_admin_plugin_accoun.Handlers.Delete.{DeleteBody, handle_account_delete}
use omps_admin_plugin_accoun.Handlers.Delete.Outcome as Delete

abbrev pub HasUniqueNames : Dict AccountRecord → Type 0
HasUniqueNames accounts =
    (j k : String) (a b : AccountRecord)
    → lookup j accounts ≡ some a
    → lookup k accounts ≡ some b
    → a.username ≡ b.username
    → j ≡ k

pub record IsWellFormed (accounts : Dict AccountRecord) : Type 0 where
  pub keyed : IsKeyed accounts
  pub unique : HasUniqueNames accounts

module _ (before after : Dict AccountRecord) (wf : IsWellFormed before) where
  -- Whatever stands under a key after a removal stood there before.
  removed-IsWellFormed :
      (id : String)
      → ((k : String) → lookup k after ≡ (if id == k then none else lookup k before))
      → IsWellFormed after
  removed-IsWellFormed id effect = record {
    keyed = λ k acc h. wf.keyed k acc (was k acc h);
    unique = λ j k a b h h' e. wf.unique j k a b (was j a h) (was k b h') e;
  }
    where
      was :
          (k : String) (acc : AccountRecord)
          → lookup k after ≡ some acc
          → lookup k before ≡ some acc
      was k acc h = ground (arith, h, effect k)

  -- A write under `id` of an account with that id, whose user name no other account has.
  written-IsWellFormed :
      (id : String) (new : AccountRecord)
      → new.id ≡ id
      → trim_space id ≡ id
      → ((k : String) (acc : AccountRecord)
          → lookup k before ≡ some acc
          → acc.username ≡ new.username
          → id ≡ k)
      → ((k : String) → lookup k after ≡ (if id == k then some new else lookup k before))
      → IsWellFormed after
  written-IsWellFormed id new own trimmed fresh effect = record {
    keyed = λ k acc h. (
      ground (arith, h, effect k, own, eq_iff id k, wf.keyed k acc),
      ground (arith, h, effect k, trimmed, eq_iff id k, wf.keyed k acc),
    );
    unique = λ j k a b h h' e. ground (
      arith,
      h,
      h',
      e,
      effect j,
      effect k,
      eq_iff id j,
      eq_iff id k,
      fresh j a,
      fresh k b,
      wf.unique j k a b,
    );
  }

module _ (env : Env) (memory : env.db ≡ none) where
  -- Without a database, handleAccountDelete keeps the accounts well formed.
  pub handle_account_delete-IsWellFormed :
      (r : Request) (d : Decoded DeleteBody) (w : World env)
      → IsWellFormed w.accounts
      → IsWellFormed (handle_account_delete env r d w).1.accounts
  handle_account_delete-IsWellFormed r d w wf =
      ended (Delete.handle_account_delete-Outcome env memory r d w)
    where
      decided :
          {op : AccountRecord} {response : Response} {after : World env} (id : String)
          → Delete.DeleteOutcome env memory op id w.accounts response after
          → IsWellFormed after.accounts
      decided id (Delete.rejected _ same) = subst IsWellFormed (sym same) wf
      decided id (Delete.deleted _ _ _ _ effect) = removed-IsWellFormed _ _ wf id effect

      ended :
          {response : Response} {after : World env}
          → Delete.HandlerOutcome env memory r d.body w response after
          → IsWellFormed after.accounts
      ended (Delete.unchanged _ same) = subst IsWellFormed (sym same) wf
      ended (Delete.accepted _ _ outcome) = decided _ outcome

  -- Without a database, handleAccountUpdate keeps the accounts well formed.
  pub handle_account_update-IsWellFormed :
      (r : Request) (d : Decoded UpdateBody) (w : World env)
      → IsWellFormed w.accounts
      → IsWellFormed (handle_account_update env r d w).1.accounts
  handle_account_update-IsWellFormed r d w wf =
      ended (Update.handle_account_update-Outcome env memory r d w wf.keyed)
    where
      decided :
          {op : AccountRecord} {response : Response} {after : World env} (id status : String)
          (ids : List String)
          → Update.UpdateOutcome env memory op id status ids w.accounts response after
          → IsWellFormed after.accounts
      decided id status ids (Update.rejected _ same) = subst IsWellFormed (sym same) wf
      decided id status ids (Update.updated acc _ here _ effect _) =
          written-IsWellFormed _ _ wf id _ (wf.keyed id acc here).0 (wf.keyed id acc here).1
            (λ k a h e. wf.unique id k acc a here h (sym e)) effect

      ended :
          {response : Response} {after : World env}
          → Update.HandlerOutcome env memory r d.body w response after
          → IsWellFormed after.accounts
      ended (Update.unchanged _ same) = subst IsWellFormed (sym same) wf
      ended (Update.accepted _ ids _ _ outcome) = decided _ _ ids outcome

  -- Without a database, handleResetPassword keeps the accounts well formed.
  pub handle_reset_password-IsWellFormed :
      (r : Request) (d : Decoded ResetBody) (w : World env)
      → IsWellFormed w.accounts
      → IsWellFormed (handle_reset_password env r d w).1.accounts
  handle_reset_password-IsWellFormed r d w wf =
      ended (Reset.handle_reset_password-Outcome env memory r d w wf.keyed)
    where
      decided :
          {op : AccountRecord} {response : Response} {after : World env} (id password : String)
          → Reset.ResetOutcome env memory op id password w.accounts response after
          → IsWellFormed after.accounts
      decided id password (Reset.rejected _ same) = subst IsWellFormed (sym same) wf
      decided id password (Reset.reset acc _ here _ effect) =
          written-IsWellFormed _ _ wf id _ (wf.keyed id acc here).0 (wf.keyed id acc here).1
            (λ k a h e. wf.unique id k acc a here h (sym e)) effect

      ended :
          {response : Response} {after : World env}
          → Reset.HandlerOutcome env memory r d.body w response after
          → IsWellFormed after.accounts
      ended (Reset.unchanged _ same) = subst IsWellFormed (sym same) wf
      ended (Reset.accepted _ _ outcome) = decided _ _ outcome

  -- Without a database, and if ranging over a map comes by every entry, handleAccountCreate keeps
  -- the accounts well formed: each under its own id, which has no blanks around it, and no two
  -- with the same user name.
  pub handle_account_create-IsWellFormed :
      RangesAll env
      → (r : Request) (d : Decoded CreateBody) (w : World env) → IsWellFormed w.accounts
      → IsWellFormed (handle_account_create env r d w).1.accounts
  handle_account_create-IsWellFormed ranges r d w wf =
      ended (Create.handle_account_create-Outcome env memory ranges r d w)
    where
      decided :
          {response : Response} {after : World env} (ids : List String)
          → Create.CreateOutcome env memory ranges d.body ids w.accounts response after
          → IsWellFormed after.accounts
      decided ids (Create.rejected _ same) = subst IsWellFormed (sym same) wf
      decided ids (Create.new w' _ unused effect _) =
          written-IsWellFormed _ _ wf (drawn env w').0 _ refl
            (trim_space-new_short_id env (call env.now w').1)
            (λ k a h e.
              ground (arith, unused k a h, e, eq_iff a.username (trim_space d.body.account)))
            effect

      ended :
          {response : Response} {after : World env}
          → Create.HandlerOutcome env memory ranges r d.body w response after
          → IsWellFormed after.accounts
      ended (Create.unchanged _ same) = subst IsWellFormed (sym same) wf
      ended (Create.accepted _ ids _ _ outcome) = decided ids outcome
