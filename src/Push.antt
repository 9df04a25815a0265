-- ===== src/Push.antt =====
-- ws_example.go, and the handlers and `getUserID` of main.go that touch no account.
use omps_admin_plugin_accoun.Prelude.{String, ◌||◌, Option, none, [], ◌∷◌, ◌==◌, if◌then◌else◌}
use omps_admin_plugin_accoun.Prelude.Int.{negsuc}
use omps_admin_plugin_accoun.Prelude.Dict.{get_or}
use omps_admin_plugin_accoun.Prelude.Exec.{Exec, pure, ◌>>=◌, on_none}
use omps_admin_plugin_accoun.Account.{Error}
use omps_admin_plugin_accoun.Json.{null, str, obj, end, field, Response, json, write_json}
use omps_admin_plugin_accoun.Platform.{Request, Env, World, call}

-- `getUserID`; `context_user` is the text that the request's context has under `user_id`, or empty.
unfoldable pub get_user_id : Request → String → String
get_user_id r context_user =
    let user_id = get_or "" "X-User-ID" r.headers in if user_id == "" then context_user else user_id

abbrev pub plugin_name : String
plugin_name = "account"

module _ (env : Env) where
  -- What the push answers is dropped; the result is always a nil error.
  unfoldable pub send_friend_request : String → String → String → Exec (World env) (Option Error)
  send_friend_request from_user_id to_user_id note = on_none env.push (pure none) λ push. do
    now ← call env.now
    sent ← call (
        push to_user_id "friend.request_received" (
          ("from_user_id", from_user_id)
          ∷ ("note", note)
          ∷ ("created_at", env.format_time now)
          ∷ []))
    pure none

  -- The event goes out, if the runtime gave the plugin a way to send it.
  unfoldable pub emit_typing : String → String → Exec (World env) Response
  emit_typing from_user_id to_user_id = on_none env.emit (pure (write_json 0 null "ok")) λ emit. do
    sent ← call (emit to_user_id "chat.typing" (("from_user_id", from_user_id) ∷ []))
    pure (write_json 0 null "ok")

  unfoldable pub handle_typing_notice : Request → String → Exec (World env) Response
  handle_typing_notice r context_user =
      let from_user_id = get_user_id r context_user in
      let to_user_id = get_or "" "to" r.query in
      if from_user_id == "" || to_user_id == ""
      then pure (json (negsuc 0) null "missing user id")
      else emit_typing from_user_id to_user_id

  unfoldable pub handle_hello : String → Exec (World env) Response
  handle_hello version = pure (
      write_json 0 (obj (field "module" (str plugin_name) (field "version" (str version) end)))
        "ok")

  unfoldable pub handle_admin_ping : Exec (World env) Response
  handle_admin_ping = pure (write_json 0 null "pong")
