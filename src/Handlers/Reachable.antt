-- ===== src/Handlers/Reachable.antt =====
-- The plugin over any sequence of requests, where it has no database.
use omps_admin_plugin_accoun.Prelude.{◌≡◌, sym, subst, none}
use omps_admin_plugin_accoun.Platform.{Request, Decoded, Env, World}
use omps_admin_plugin_accoun.Storage.Created.{RangesAll}
use omps_admin_plugin_accoun.Handlers.Login.{Credentials, handle_login, handle_validate_password}
use omps_admin_plugin_accoun.Handlers.Me.{handle_me}
use omps_admin_plugin_accoun.Handlers.CheckPermission.{PermissionBody, handle_check_permission}
use omps_admin_plugin_accoun.Handlers.Query.{handle_account_list, handle_account_detail}
use omps_admin_plugin_accoun.Handlers.Create.{CreateBody, handle_account_create}
use omps_admin_plugin_accoun.Handlers.Update.{UpdateBody, handle_account_update}
use omps_admin_plugin_accoun.Handlers.ResetPassword.{ResetBody, handle_reset_password}
use omps_admin_plugin_accoun.Handlers.Delete.{DeleteBody, handle_account_delete}
use omps_admin_plugin_accoun.Handlers.Invariants.{
  IsWellFormed, handle_account_create-IsWellFormed, handle_account_update-IsWellFormed,
  handle_reset_password-IsWellFormed, handle_account_delete-IsWellFormed,
}
use omps_admin_plugin_accoun.Handlers.ReadOnly.{readers-unchanged}

module _ (env : Env) where
  -- A request that was handled. What is outside may have changed before it came.
  pub data Step (w : World env) : World env → Type 0 where
    outside : (o : env.Outside) → Step w (record w { outside = o })
    create : (r : Request) (d : Decoded CreateBody) → Step w (handle_account_create env r d w).1
    update : (r : Request) (d : Decoded UpdateBody) → Step w (handle_account_update env r d w).1
    reset : (r : Request) (d : Decoded ResetBody) → Step w (handle_reset_password env r d w).1
    delete : (r : Request) (d : Decoded DeleteBody) → Step w (handle_account_delete env r d w).1
    login : (r : Request) (d : Decoded Credentials) → Step w (handle_login env r d w).1
    validate :
        (r : Request) (d : Decoded Credentials) → Step w (handle_validate_password env r d w).1
    check :
        (r : Request) (d : Decoded PermissionBody) → Step w (handle_check_permission env r d w).1
    me : (r : Request) → Step w (handle_me env r w).1
    list : (r : Request) → Step w (handle_account_list env r w).1
    detail : (r : Request) → Step w (handle_account_detail env r w).1

  pub data Reaches (w : World env) : World env → Type 0 where
    here : Reaches w w
    then_step : {w' w'' : World env} → Reaches w w' → Step w' w'' → Reaches w w''

  no_credentials : Decoded Credentials
  no_credentials = record { body = record { account = ""; password = "" }; err = none }

  no_permission : Decoded PermissionBody
  no_permission = record { body = record { session_token = ""; permission_code = "" }; err = none }

  module _ (memory : env.db ≡ none) (ranges : RangesAll env) where
    Step-IsWellFormed :
        (w w' : World env) → Step w w' → IsWellFormed w.accounts → IsWellFormed w'.accounts
    Step-IsWellFormed w _ (outside o) wf = wf
    Step-IsWellFormed w _ (create r d) wf =
        handle_account_create-IsWellFormed env memory ranges r d w wf
    Step-IsWellFormed w _ (update r d) wf = handle_account_update-IsWellFormed env memory r d w wf
    Step-IsWellFormed w _ (reset r d) wf = handle_reset_password-IsWellFormed env memory r d w wf
    Step-IsWellFormed w _ (delete r d) wf = handle_account_delete-IsWellFormed env memory r d w wf
    Step-IsWellFormed w _ (login r d) wf =
        subst IsWellFormed (sym (readers-unchanged env r d no_permission w).0) wf
    Step-IsWellFormed w _ (validate r d) wf =
        subst IsWellFormed (sym (readers-unchanged env r d no_permission w).1) wf
    Step-IsWellFormed w _ (check r d) wf =
        subst IsWellFormed (sym (readers-unchanged env r no_credentials d w).2) wf
    Step-IsWellFormed w _ (me r) wf =
        subst IsWellFormed (sym (readers-unchanged env r no_credentials no_permission w).3) wf
    Step-IsWellFormed w _ (list r) wf =
        subst IsWellFormed (sym (readers-unchanged env r no_credentials no_permission w).4) wf
    Step-IsWellFormed w _ (detail r) wf =
        subst IsWellFormed (sym (readers-unchanged env r no_credentials no_permission w).5) wf

    -- Without a database, and if ranging over a map comes by every entry, accounts that are well
    -- formed stay so over any sequence of requests to the handlers of accounts, sessions and
    -- permissions, in any order, whatever happens outside between two requests.
    pub Reaches-IsWellFormed :
        (w w' : World env) → Reaches w w' → IsWellFormed w.accounts → IsWellFormed w'.accounts
    Reaches-IsWellFormed w _ here wf = wf
    Reaches-IsWellFormed w _ (then_step {w' = w'} {w'' = w''} reached step) wf =
        Step-IsWellFormed w' w'' step (Reaches-IsWellFormed w w' reached wf)
