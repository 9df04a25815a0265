-- ===== src/Routes.antt =====
-- The route table of main.go with what the `init` functions of method_call.go, scheduled_trigger.go and
-- selftest.go add to it.
pub mod Preserved
use omps_admin_plugin_accoun.Prelude.{String, [], ◌∷◌}
use omps_admin_plugin_accoun.Prelude.Dict.{Dict}
use omps_admin_plugin_accoun.Platform.{Decoded, Env}
use omps_admin_plugin_accoun.Handlers.Login.{Credentials, handle_login, handle_validate_password}
use omps_admin_plugin_accoun.Handlers.Me.{handle_me}
use omps_admin_plugin_accoun.Handlers.CheckPermission.{PermissionBody, handle_check_permission}
use omps_admin_plugin_accoun.Handlers.Query.{handle_account_list, handle_account_detail}
use omps_admin_plugin_accoun.Handlers.Create.{CreateBody, handle_account_create}
use omps_admin_plugin_accoun.Handlers.Update.{UpdateBody, handle_account_update}
use omps_admin_plugin_accoun.Handlers.ResetPassword.{ResetBody, handle_reset_password}
use omps_admin_plugin_accoun.Handlers.Delete.{DeleteBody, handle_account_delete}
use omps_admin_plugin_accoun.Push.{handle_hello, handle_admin_ping}
use omps_admin_plugin_accoun.Internal.MethodCall.{MethodBody, methods, handle_method_call_internal}
use omps_admin_plugin_accoun.Internal.ScheduledTrigger.{
  TaskBody, scheduled_tasks, handle_scheduled_trigger_internal,
}
use omps_admin_plugin_accoun.Selftest.Harness.{Handler}

-- `json.NewDecoder(r.Body).Decode(&req)` of encoding/json, for each type of body.
pub record Decoders : Type 0 where
  pub credentials : String → Decoded Credentials
  pub permission : String → Decoded PermissionBody
  pub create : String → Decoded CreateBody
  pub update : String → Decoded UpdateBody
  pub reset : String → Decoded ResetBody
  pub delete : String → Decoded DeleteBody
  pub method : String → Decoded MethodBody
  pub task : String → Decoded TaskBody

-- `Routes`. `version` is set by the build, and `selftest` stands for the endpoint of the self-test,
-- which reads this table itself.
abbrev pub routes : (env : Env) → Decoders → String → Handler env → Dict (Handler env)
routes env json version selftest =
    ("POST /api/account/login", λ r body. handle_login env r (json.credentials body))
    ∷ ("GET /api/account/me", λ r body. handle_me env r)
    ∷ (
      "POST /api/account/_validate-password",
      λ r body. handle_validate_password env r (json.credentials body),
    )
    ∷ ("POST /api/account/create", λ r body. handle_account_create env r (json.create body))
    ∷ ("GET /api/account/list", λ r body. handle_account_list env r)
    ∷ ("GET /api/account/detail", λ r body. handle_account_detail env r)
    ∷ ("PUT /api/account/update", λ r body. handle_account_update env r (json.update body))
    ∷ ("PUT /api/account/reset-password", λ r body. handle_reset_password env r (json.reset body))
    ∷ ("POST /api/admin/account/delete", λ r body. handle_account_delete env r (json.delete body))
    ∷ (
      "POST /api/account/check-permission",
      λ r body. handle_check_permission env r (json.permission body),
    )
    ∷ ("GET /api/account/hello", λ r body. handle_hello env version)
    ∷ ("POST /api/account/admin/ping", λ r body. handle_admin_ping env)
    ∷ (
      "POST /_internal/method-call/admin_account",
      λ r body. handle_method_call_internal env (methods env) r (json.method body),
    )
    ∷ (
      "POST /_internal/scheduled-trigger/admin_account",
      λ r body. handle_scheduled_trigger_internal env (scheduled_tasks env) r (json.task body),
    )
    ∷ ("POST /_internal/selftest/admin_account", selftest)
    ∷ []
