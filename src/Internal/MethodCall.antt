-- ===== src/Internal/MethodCall.antt =====
-- method_call.go
pub mod Outcome
use mathlib.Core.Bool.{not}
use omps_admin_plugin_accoun.Prelude.{
  String, Option, none, some, ◌<>◌, [], ◌∷◌, ◌==◌, is_empty, if◌then◌else◌,
}
use omps_admin_plugin_accoun.Prelude.Int.{pos}
use omps_admin_plugin_accoun.Prelude.Dict.{Dict, lookup}
use omps_admin_plugin_accoun.Prelude.Exec.{Exec, pure, ◌>>=◌, on_none, on_some}
use omps_admin_plugin_accoun.Account.{failure, message, Result, ok, fail, on_error}
use omps_admin_plugin_accoun.Json.{
  Json, null, num, str, obj, end, field, obj_or_null, Response, http_error, write_json,
}
use omps_admin_plugin_accoun.Platform.{Request, Decoded, Env, World}
use omps_admin_plugin_accoun.Temporary.{TemporaryAdminCredential, create_temporary_admin}
use omps_admin_plugin_accoun.Internal.{is_authenticated}

-- A method's outcome: its value with an error, or the text of what it panicked with.
pub data MethodResult : Type 0 where
  returned : Result Json → MethodResult
  method_panicked : String → MethodResult

-- The entries of a map, which are none where it is nil.
abbrev pub entries_of : Option (Dict Json) → Dict Json
entries_of none = []
entries_of (some entries) = entries

-- `MethodFunc`
abbrev pub MethodFunc : Env → Type 0
MethodFunc env = Option (Dict Json) → Exec (World env) MethodResult

-- `none` are arguments that the body omits or gives as null: a nil map.
pub record MethodBody : Type 0 where
  pub method : String
  pub args : Option (Dict Json)

abbrev pub credential_json : TemporaryAdminCredential → Json
credential_json c = obj (
    field "account" (str c.account) (
      field "password" (str c.password) (
        field "expires_at" (str c.expires_at) (field "ttl_seconds" (num (pos c.ttl_seconds)) end))))

abbrev pub method_reply : MethodResult → Response
method_reply (method_panicked text) = write_json 1 null ("method call panic: " <> text)
method_reply (returned (fail e)) = write_json 1 null (message e)
method_reply (returned (ok result)) = write_json 0 result ""

module _ (env : Env) where
  unfoldable pub selftest_echo : MethodFunc env
  selftest_echo args = pure (
      returned
        (ok (obj (field "module" (str "admin_account") (field "echo" (obj_or_null args) end)))))

  unfoldable pub call_create_temporary_admin : MethodFunc env
  call_create_temporary_admin args =
      if not (is_empty (entries_of args))
      then pure (returned (fail (failure "CreateTemporaryAdmin 不接受参数")))
      else do
        created ← create_temporary_admin env
        pure (returned (on_error created (λ e. fail e) λ c. ok (credential_json c)))

  -- `Methods`, once `init` has run.
  abbrev pub methods : Dict (MethodFunc env)
  methods =
      ("AdminAccountSelftestEcho", selftest_echo)
      ∷ ("CreateTemporaryAdmin", call_create_temporary_admin)
      ∷ []

  -- Once the body is decoded.
  unfoldable pub call_method : Dict (MethodFunc env) → MethodBody → Exec (World env) Response
  call_method table b =
      if b.method == ""
      then pure (write_json 1 null "method 不能为空")
      else on_none (lookup b.method table) (pure (write_json 1 null ("未注册的方法: " <> b.method)))
          λ fn. do result ← fn b.args; pure (method_reply result)

  unfoldable pub handle_method_call_internal :
      Dict (MethodFunc env) → Request → Decoded MethodBody → Exec (World env) Response
  handle_method_call_internal table r d =
      if not (is_authenticated r)
      then pure (http_error 401 "unauthorized")
      else on_some d.err (λ e. pure (write_json 1 null ("请求体解析失败: " <> message e)))
          (call_method table d.body)
