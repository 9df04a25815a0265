-- ===== src/RoleClient/Frame.antt =====
-- Requests to the role module leave the plugin's maps alone.
use omps_admin_plugin_accoun.Prelude.{Bool, String, Option, List, [], ◌∷◌}
use omps_admin_plugin_accoun.Prelude.Dict.{Dict}
use omps_admin_plugin_accoun.Prelude.Exec.{Exec}
use omps_admin_plugin_accoun.Account.{AccountRoleResponse, Result}
use omps_admin_plugin_accoun.Platform.{Request, HttpMethod, Env, Maps, World}
use omps_admin_plugin_accoun.Platform.Keeps.{Keeps, Keeps-bind, keeps_rules}
use omps_admin_plugin_accoun.RoleClient.{
  do_admin_role_request, admin_role_detail, admin_role_check_permission, check_role,
  roles_available,
}
use omps_admin_plugin_accoun.RoleClient.Permissions.{
  Evaluation, evaluate_round, evaluate_loop, evaluate_role_permission,
  matched_role_ids_for_permission, details_loop, role_details_and_permissions,
}

module _ {ι} (env : Env) {Q : Maps → Type ι} where
  do_admin_role_request-Keeps :
      (r : Option Request) (method : HttpMethod) (target : String) (body : Option (Dict String))
      → Keeps Q (do_admin_role_request env r method target body)
  unfolding do_admin_role_request
  do_admin_role_request-Keeps r method target body = search keeps_rules

  pub admin_role_detail-Keeps :
      (r : Option Request) (role_id : String) → Keeps Q (admin_role_detail env r role_id)
  unfolding admin_role_detail
  admin_role_detail-Keeps r role_id = search (keeps_rules, do_admin_role_request-Keeps)

  admin_role_check_permission-Keeps :
      (r : Request) (role_id code : String)
      → Keeps Q (admin_role_check_permission env r role_id code)
  unfolding admin_role_check_permission
  admin_role_check_permission-Keeps r role_id code =
      search (keeps_rules, do_admin_role_request-Keeps)

  check_role-Keeps :
      (r : Request) (id : String) (rest : Exec (World env) (Result Bool))
      → Keeps Q rest
      → Keeps Q (check_role env r id rest)
  unfolding check_role
  check_role-Keeps r id rest h = search (keeps_rules, admin_role_detail-Keeps)

  pub roles_available-Keeps :
      (r : Request) (ids : List String) → Keeps Q (roles_available env r ids)
  unfolding roles_available
  roles_available-Keeps r [] = search keeps_rules
  roles_available-Keeps r (id ∷ ids) = check_role-Keeps r id _ (roles_available-Keeps r ids)

  evaluate_round-Keeps :
      (r : Request) (code id : String) (e : Evaluation) → Keeps Q (evaluate_round env r code id e)
  unfolding evaluate_round
  evaluate_round-Keeps r code id e =
      search (keeps_rules, admin_role_detail-Keeps, admin_role_check_permission-Keeps) depth 9

  evaluate_loop-Keeps :
      (r : Request) (code : String) (ids : List String) (e : Evaluation)
      → Keeps Q (evaluate_loop env r code ids e)
  unfolding evaluate_loop
  evaluate_loop-Keeps r code [] e = search keeps_rules
  evaluate_loop-Keeps r code (id ∷ ids) e =
      Keeps-bind _ _ (evaluate_round-Keeps _ _ _ _)
        λ round. search (keeps_rules, evaluate_loop-Keeps r code ids)

  pub evaluate_role_permission-Keeps :
      (r : Request) (ids : List String) (code : String)
      → Keeps Q (evaluate_role_permission env r ids code)
  unfolding evaluate_role_permission
  evaluate_role_permission-Keeps r ids code = search (keeps_rules, evaluate_loop-Keeps)

  pub matched_role_ids_for_permission-Keeps :
      (r : Request) (ids : List String) (code : String)
      → Keeps Q (matched_role_ids_for_permission env r ids code)
  unfolding matched_role_ids_for_permission
  matched_role_ids_for_permission-Keeps r ids code =
      search (keeps_rules, evaluate_role_permission-Keeps)

  details_loop-Keeps :
      (r : Request) (ids : List String) (roles : List AccountRoleResponse) (set : List String)
      → Keeps Q (details_loop env r ids roles set)
  unfolding details_loop
  details_loop-Keeps r [] roles set = search keeps_rules
  details_loop-Keeps r (id ∷ ids) roles set =
      Keeps-bind _ _ (admin_role_detail-Keeps _ _)
        λ found. search (keeps_rules, details_loop-Keeps r ids)

  pub role_details_and_permissions-Keeps :
      (r : Request) (ids : List String) → Keeps Q (role_details_and_permissions env r ids)
  unfolding role_details_and_permissions
  role_details_and_permissions-Keeps r ids = search (keeps_rules, details_loop-Keeps)
