-- ===== src/RoleClient.antt =====
-- admin_role_client.go: requests to the role module over the runtime's request bridge, and what the
-- plugin concludes from the answers.
pub mod Permissions
pub mod Frame
pub mod Evaluated
use mathlib.Core.Bool.{not}
use omps_admin_plugin_accoun.Prelude.{
  ℕ, String, ◌<>◌, Bool, true, false, ◌&&◌, ◌||◌, Option, none, some, List, [], ◌∷◌, ◌++◌, ◌==◌,
  if◌then◌else◌,
}
use omps_admin_plugin_accoun.Prelude.Int.{ℤ, pos, ltb_ℤ, eqb_ℤ}
use omps_admin_plugin_accoun.Prelude.Text.{trim_space}
use omps_admin_plugin_accoun.Prelude.Dict.{Dict, insert}
use omps_admin_plugin_accoun.Prelude.Exec.{Exec, pure, ◌>>=◌, on_none}
use omps_admin_plugin_accoun.Account.{
  AccountRoleResponse, Error, Result, ok, fail, failure, on_error,
}
use omps_admin_plugin_accoun.Platform.{
  Request, HttpMethod, get, post, InternalRequest, AdminRoleApiResponse, AdminRoleDetail,
  AdminRoleCheckPermission, Env, World, call,
}

-- `detail` of a role that exists: its status, where "deleted" and "missing" are told apart.
unfoldable pub normalize_role_status : AdminRoleDetail → String
normalize_role_status detail =
    let status = trim_space detail.status in
    if status == "deleted"
    then "deleted"
    else if not (trim_space detail.deleted_at == "")
    then "deleted"
    else if status == ""
    then "missing"
    else status

-- The status that is shown for a role: `none` is a role that the role module does not have.
abbrev pub status_of : Option AdminRoleDetail → String
status_of none = "missing"
status_of (some detail) = normalize_role_status detail

-- The codes by which the role module says that there is no such role.
abbrev pub is_absent_code : ℤ → Bool
is_absent_code status =
    eqb_ℤ status (pos 2122)
    || eqb_ℤ status (pos 2312)
    || eqb_ℤ status (pos 2322)
    || eqb_ℤ status (pos 2332)
    || eqb_ℤ status (pos 2342)

-- The headers of a request to the role module.
abbrev pub role_headers : String → Option Request → Option (Dict String) → Dict String
role_headers api_key r body =
    let cloned : Dict String = (on_none r ([]) λ req. req.headers) in
    let typed : Dict String =
      (on_none body cloned λ b. insert "Content-Type" "application/json" cloned) in
    if api_key == "" then typed else insert "X-API-Key" api_key typed

-- A body that is marshalled, or no body.
abbrev pub payload_of :
    (Dict String → Result String) → Option (Dict String) → Result (Option String)
payload_of marshal none = ok none
payload_of marshal (some body) = on_error (marshal body) (λ e. fail e) λ raw. ok (some raw)

-- What `doAdminRoleRequest` makes of the bridge's answer.
abbrev pub read_answer :
    (String → Result AdminRoleApiResponse) → Result (ℤ × String) → Result AdminRoleApiResponse
read_answer unmarshal (fail e) = fail e
read_answer unmarshal (ok (status, body)) =
    if ltb_ℤ status (pos 200) || not (ltb_ℤ status (pos 300))
    then fail (failure "admin_role api http status failed")
    else unmarshal body

-- What `adminRoleDetail` makes of the envelope; `ok none` is `(zero, false, nil)`.
abbrev pub read_detail :
    (String → Result AdminRoleDetail)
    → Result AdminRoleApiResponse
    → Result (Option AdminRoleDetail)
read_detail unmarshal (fail e) = fail e
read_detail unmarshal (ok resp) =
    if is_absent_code resp.status
    then ok none
    else if not (eqb_ℤ resp.status (pos 0))
    then fail (failure "admin_role detail failed")
    else (on_error (unmarshal resp.payload) (λ e. fail e) λ detail. ok (some detail))

-- What `adminRoleCheckPermission` makes of the envelope: `allowed` and the role's status.
abbrev pub read_check :
    (String → Result AdminRoleCheckPermission)
    → Result AdminRoleApiResponse
    → Result (Bool × String)
read_check unmarshal (fail e) = fail e
read_check unmarshal (ok resp) =
    if eqb_ℤ resp.status (pos 2173)
    then ok (false, "missing")
    else if eqb_ℤ resp.status (pos 2174)
    then ok (false, "enabled")
    else if not (eqb_ℤ resp.status (pos 0))
    then fail (failure "admin_role permission check failed")
    else (on_error (unmarshal resp.payload) (λ e. fail e)
        λ answer.
          let trimmed = trim_space answer.role_status in
          let status = if trimmed == "" then "enabled" else trimmed in
          ok (answer.allowed && status == "enabled", status))

module _ (env : Env) where
  send :
      InternalRequest env.Outside
      → HttpMethod
      → String
      → Option (Dict String)
      → Option Request
      → Exec (World env) (Result AdminRoleApiResponse)
  send bridge method target body r =
      on_error (payload_of env.marshal body) (λ e. pure (fail e))
        λ payload. do
          answer ← call (bridge method target payload (role_headers env.admin_api_key r body))
          pure (read_answer env.unmarshal_response answer)

  unfoldable pub do_admin_role_request :
      Option Request
      → HttpMethod
      → String
      → Option (Dict String)
      → Exec (World env) (Result AdminRoleApiResponse)
  unfolding send
  do_admin_role_request r method target body =
      on_none env.internal_request
        (pure (fail (failure "runtime internal request bridge unavailable")))
        λ bridge. send bridge method target body r

  unfoldable pub admin_role_detail :
      Option Request → String → Exec (World env) (Result (Option AdminRoleDetail))
  admin_role_detail r role_id = do
    let target = "/api/role/detail?role_id=" <> env.query_escape role_id
    resp ← do_admin_role_request r get target none
    pure (read_detail env.unmarshal_detail resp)

  unfoldable pub admin_role_check_permission :
      Request → String → String → Exec (World env) (Result (Bool × String))
  admin_role_check_permission r role_id permission_code = do
    let body : Dict String = ("role_id", role_id) ∷ ("permission_code", permission_code) ∷ []
    resp ← do_admin_role_request (some r) post "/api/role/check-permission" (some body)
    pure (read_check env.unmarshal_check resp)

  -- One round of the loop of `rolesAvailable`, before the rounds that follow.
  unfoldable pub check_role :
      Request → String → Exec (World env) (Result Bool) → Exec (World env) (Result Bool)
  check_role r role_id rest = do
    found ← admin_role_detail (some r) role_id
    on_error found (λ e. pure (fail e))
        λ row.
          on_none row (pure (ok false))
            λ detail. if normalize_role_status detail == "enabled" then rest else pure (ok false)

  -- The code's test for an empty list is the first clause.
  unfoldable pub roles_available : Request → List String → Exec (World env) (Result Bool)
  roles_available r [] = pure (ok true)
  roles_available r (role_id ∷ ids) = check_role r role_id (roles_available r ids)
