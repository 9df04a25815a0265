-- ===== src/RoleClient/Permissions.antt =====
-- `evaluateRolePermission`, `matchedRoleIDsForPermission` and `roleDetailsAndPermissions` of
-- admin_role_client.go: the loops over an account's roles.
use mathlib.Core.Bool.{not}
use omps_admin_plugin_accoun.Prelude.{
  String, Bool, true, false, ◌&&◌, List, [], ◌∷◌, ◌++◌, ◌==◌, if◌then◌else◌, some,
}
use omps_admin_plugin_accoun.Prelude.Exec.{Exec, pure, ◌>>=◌, on_none}
use omps_admin_plugin_accoun.Account.{AccountRoleResponse, Result, ok, fail, on_error}
use omps_admin_plugin_accoun.Platform.{Request, Env, World, call}
use omps_admin_plugin_accoun.RoleClient.{status_of, admin_role_detail, admin_role_check_permission}

-- What the loop of `evaluateRolePermission` has gathered.
pub record Evaluation : Type 0 where
  pub matched : List String
  pub roles : List AccountRoleResponse
  pub has_invalid : Bool

-- The rest of a round for a role that is enabled: the permission has been asked for.
unfoldable pub check_round : String → Evaluation → Result (Bool × String) → Result Evaluation
check_round role_id e (fail err) = fail err
check_round role_id e (ok (allowed, role_status)) =
    if not (role_status == "") && not (role_status == "enabled")
    then ok (record {
      matched = e.matched;
      roles = e.roles ++ record { role_id = role_id; role_status = role_status } ∷ [];
      has_invalid = true;
    })
    else ok (record {
      matched = if allowed then e.matched ++ role_id ∷ [] else e.matched;
      roles = e.roles ++ record { role_id = role_id; role_status = "enabled" } ∷ [];
      has_invalid = e.has_invalid;
    })

abbrev pub conclude : Result Evaluation → Result (List String × List AccountRoleResponse)
conclude (fail err) = fail err
conclude (ok e) = ok (if e.has_invalid then [] else e.matched, e.roles)

-- `permSet[code] = true`: the keys of the set in the order in which they came.
unfoldable pub add_code : String → List String → List String
add_code code [] = code ∷ []
add_code code (c ∷ cs) = if c == code then c ∷ cs else c ∷ add_code code cs

unfoldable pub add_codes : List String → List String → List String
add_codes [] set = set
add_codes (c ∷ cs) set = add_codes cs (add_code c set)

module _ (env : Env) where
  -- One round of the loop.
  unfoldable pub evaluate_round :
      Request → String → String → Evaluation → Exec (World env) (Result Evaluation)
  evaluate_round r permission_code role_id e = do
    found ← admin_role_detail env (some r) role_id
    on_error found (λ err. pure (fail err))
        λ detail.
          let status = status_of detail in
          if status == "enabled"
          then (do
            answer ← admin_role_check_permission env r role_id permission_code
            pure (check_round role_id e answer))
          else pure (
              ok (record {
                matched = e.matched;
                roles = e.roles ++ record { role_id = role_id; role_status = status } ∷ [];
                has_invalid = true;
              }))

  unfoldable pub evaluate_loop :
      Request → String → List String → Evaluation → Exec (World env) (Result Evaluation)
  evaluate_loop r permission_code [] e = pure (ok e)
  evaluate_loop r permission_code (role_id ∷ ids) e = do
    round ← evaluate_round r permission_code role_id e
    on_error round (λ err. pure (fail err)) λ e'. evaluate_loop r permission_code ids e'

  unfoldable pub evaluate_role_permission :
      Request
      → List String
      → String
      → Exec (World env) (Result (List String × List AccountRoleResponse))
  evaluate_role_permission r role_ids permission_code = do
    e ←
        evaluate_loop r permission_code role_ids
          (record { matched = []; roles = []; has_invalid = false })
    pure (conclude e)

  unfoldable pub matched_role_ids_for_permission :
      Request → List String → String → Exec (World env) (Result (List String))
  matched_role_ids_for_permission r role_ids permission_code = do
    answer ← evaluate_role_permission r role_ids permission_code
    on_error answer (λ err. pure (fail err)) λ (matched, roles). pure (ok matched)

  -- The loop of `roleDetailsAndPermissions`.
  unfoldable pub details_loop :
      Request
      → List String
      → List AccountRoleResponse
      → List String
      → Exec (World env) (Result (List AccountRoleResponse × List String))
  details_loop r [] roles set = pure (ok (roles, set))
  details_loop r (role_id ∷ ids) roles set = do
    found ← admin_role_detail env (some r) role_id
    on_error found (λ err. pure (fail err))
        λ detail.
          let status = status_of detail in
          let codes : List String = (on_none detail ([]) λ d. d.permissions) in
          details_loop r ids (roles ++ record { role_id = role_id; role_status = status } ∷ [])
            (if status == "enabled" then add_codes codes set else set)

  unfoldable pub role_details_and_permissions :
      Request → List String → Exec (World env) (Result (List AccountRoleResponse × List String))
  role_details_and_permissions r role_ids = do
    gathered ← details_loop r role_ids [] []
    on_error gathered (λ err. pure (fail err))
        λ (roles, set). do
          codes ← call (env.range_codes set)
          pure (ok (roles, env.sort_strings codes))
