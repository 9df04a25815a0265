-- ===== src/Handlers/Payloads.antt =====
-- The response bodies: `accountResponse` and the maps that account_handlers.go builds.
use omps_admin_plugin_accoun.Prelude.{String, Bool, true, false, List, [], ◌∷◌, ◌==◌, if◌then◌else◌}
use omps_admin_plugin_accoun.Prelude.Exec.{Exec, pure, ◌>>=◌}
use omps_admin_plugin_accoun.Account.{
  AccountRecord, AccountRoleResponse, AccountResponse, no_valid_account_role, Result, ok, fail,
  on_error,
}
use omps_admin_plugin_accoun.Json.{
  Json, bool, str, arr, obj, Items, nil, item, end, field, texts, texts_or_null,
}
use omps_admin_plugin_accoun.Platform.{Request, Env, World}
use omps_admin_plugin_accoun.RoleClient.Permissions.{role_details_and_permissions}

-- The role ids of an `accountResponse` are those of `accountToResponse`: nil where there are none.
abbrev pub account_json : AccountResponse → Json
account_json a = obj (
    field "account_id" (str a.account_id) (
      field "account" (str a.account) (
        field "status" (str a.status) (
          field "role_ids" (texts_or_null a.role_ids) (
            field "is_super_admin" (bool a.is_super_admin) (
              field "created_at" (str a.created_at)
                (field "updated_at" (str a.updated_at) end)))))))

abbrev pub role_json : AccountRoleResponse → Json
role_json r = obj (field "role_id" (str r.role_id) (field "role_status" (str r.role_status) end))

abbrev pub roles_json : List AccountRoleResponse → Items
roles_json [] = nil
roles_json (r ∷ rs) = item (role_json r) (roles_json rs)

abbrev pub accounts_json : List AccountResponse → Items
accounts_json [] = nil
accounts_json (a ∷ accs) = item (account_json a) (accounts_json accs)

module _ (env : Env) where
  abbrev pub detail_json : AccountRecord → List String → List AccountRoleResponse → Json
  detail_json acc role_ids roles = obj (
      field "account_id" (str acc.id) (
        field "account" (str acc.username) (
          field "status" (str acc.status) (
            field "is_super_admin" (bool acc.is_super_admin) (
              field "role_ids" (texts_or_null role_ids) (
                field "roles" (arr (roles_json roles)) (
                  field "created_at" (str (env.format_time acc.created_at))
                    (field "updated_at" (str (env.format_time acc.updated_at)) end))))))))

  unfoldable pub account_detail_response :
      Request → AccountRecord → List String → Exec (World env) (Result Json)
  account_detail_response r acc role_ids = do
    gathered ← role_details_and_permissions env r role_ids
    on_error gathered (λ e. pure (fail e))
        λ (roles, permissions). pure (ok (detail_json acc role_ids roles))

abbrev pub permission_json : AccountRecord → Bool → List AccountRoleResponse → List String → Json
permission_json acc super roles permissions = obj (
    field "account_id" (str acc.id) (
      field "account" (str acc.username) (
        field "status" (str acc.status) (
          field "is_super_admin" (bool super) (
            field "roles" (arr (roles_json roles))
              (field "permission_codes" (arr (texts permissions)) end))))))

-- `len(roles) == 1 && roles[0].RoleStatus == "enabled"`
abbrev pub is_one_enabled : List AccountRoleResponse → Bool
is_one_enabled (role ∷ []) = role.role_status == "enabled"
is_one_enabled _ = false

unfoldable pub account_permission_response :
    (env : Env) → Request → AccountRecord → List String → Exec (World env) (Result Json)
account_permission_response env r acc role_ids =
    if acc.is_super_admin then pure (ok (permission_json acc true [] [])) else do
      gathered ← role_details_and_permissions env r role_ids
      on_error gathered (λ e. pure (fail e))
          λ (roles, permissions).
            if is_one_enabled roles
            then pure (ok (permission_json acc acc.is_super_admin roles permissions))
            else pure (fail no_valid_account_role)
