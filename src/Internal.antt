-- ===== src/Internal.antt =====
-- The endpoints that only the runtime may call: method_call.go and scheduled_trigger.go.
pub mod MethodCall
pub mod ScheduledTrigger
use omps_admin_plugin_accoun.Prelude.{String, Bool, ◌==◌}
use omps_admin_plugin_accoun.Prelude.Dict.{get_or}
use omps_admin_plugin_accoun.Platform.{Request}

-- The header that the runtime sets once it has checked the internal token.
unfoldable pub is_authenticated : Request → Bool
is_authenticated r = get_or "" "X-Internal-Authenticated" r.headers == "true"
