-- ===== src/Handlers/CheckPermission/Outcome.antt =====
-- Every way in which `handleCheckPermission` ends.
use mathlib.Core.Bool.{not}
use omps_admin_plugin_accoun.Prelude.{
  String, ◌≡◌, refl, Bool, true, false, List, ◌==◌, not-false, if◌then◌else◌,
}
use omps_admin_plugin_accoun.Prelude.Text.{trim_space}
use omps_admin_plugin_accoun.Prelude.Exec.{Exec}
use omps_admin_plugin_accoun.Account.{
  AccountRoleResponse, Current, Result, ok, SessionAccountState, missing, account_missing,
  account_invalid_role, account_ok,
}
use omps_admin_plugin_accoun.Json.{Response, write_json}
use omps_admin_plugin_accoun.Platform.{Request, Decoded, Env, World}
use omps_admin_plugin_accoun.Platform.Ends.{Ends, Ends-bind, Ends-pure, ends_rules}
use omps_admin_plugin_accoun.RoleClient.Permissions.{evaluate_role_permission}
use omps_admin_plugin_accoun.Session.{current_account_by_any_session_token}
use omps_admin_plugin_accoun.Access.Verdict.{is_success}
use omps_admin_plugin_accoun.Handlers.Payloads.{is_one_enabled}
use omps_admin_plugin_accoun.Handlers.CheckPermission.{
  PermissionBody, super_json, allowed_json, is_one, permission_reply, permission_of, check_session,
  handle_check_permission,
}

module _ {ι} {env : Env} {P : Response → World env → Type ι} {w : World env} where
  -- A switch over the state of a session's account.
  Ends-state :
      (s : SessionAccountState) (a b c m : Exec (World env) Response)
      → Ends P a w
      → Ends P b w
      → Ends P c w
      → (s ≡ account_ok → Ends P m w)
      → Ends P
          (elim s as (λ _. Exec (World env) Response) [
            | missing ↦ a
            | account_missing ↦ b
            | account_invalid_role ↦ c
            | account_ok ↦ m
          ])
          w
  Ends-state missing a b c m p q t v = p
  Ends-state account_missing a b c m p q t v = q
  Ends-state account_invalid_role a b c m p q t v = t
  Ends-state account_ok a b c m p q t v = v refl

module _ (env : Env) (r : Request) (code : String) (c : Current) (w : World env) where
  pub data PermissionOutcome : Response → Type 0 where
    rejected : {response : Response} → is_success response ≡ false → PermissionOutcome response
    super_admin :
        c.state ≡ account_ok
        → c.acc.status == "enabled" ≡ true
        → c.acc.is_super_admin ≡ true
        → PermissionOutcome (write_json 0 super_json "ok")
    evaluated :
        (matched : List String) (roles : List AccountRoleResponse)
        → c.state ≡ account_ok
        → c.acc.status == "enabled" ≡ true
        → c.acc.is_super_admin ≡ false
        → is_one c.roles ≡ true
        → (evaluate_role_permission env r c.roles code w).0 ≡ ok (matched, roles)
        → is_one_enabled roles ≡ true
        → PermissionOutcome (write_json 0 (allowed_json matched roles) "ok")

  if_cases :
      (b : Bool) (reply other : Response)
      → (b ≡ true → PermissionOutcome reply)
      → (b ≡ false → PermissionOutcome other)
      → PermissionOutcome (if b then reply else other)
  if_cases true reply other p q = p refl
  if_cases false reply other p q = q refl

  reply-Outcome :
      c.state ≡ account_ok
      → c.acc.status == "enabled" ≡ true
      → c.acc.is_super_admin ≡ false
      → is_one c.roles ≡ true
      → (answer : Result (List String × List AccountRoleResponse))
      → (evaluate_role_permission env r c.roles code w).0 ≡ answer
      → PermissionOutcome (permission_reply answer)
  reply-Outcome s e o n (Result.fail err) h = rejected refl
  reply-Outcome s e o n (ok (matched, roles)) h =
      if_cases (is_one_enabled roles) _ _ (λ t. evaluated matched roles s e o n h t)
        (λ _. rejected refl)

  permission_of-Outcome :
      c.state ≡ account_ok
      → Ends (λ response _. PermissionOutcome response) (permission_of env r code c) w
  unfolding permission_of
  permission_of-Outcome ok_state =
      let failed : false ≡ false = refl in
      let super : not (c.acc.status == "enabled") ≡ false
          → c.acc.is_super_admin ≡ true
          → PermissionOutcome (write_json 0 super_json "ok") =
        λ e s. super_admin ok_state (not-false _ e) s in
      let reply : not (c.acc.status == "enabled") ≡ false
          → c.acc.is_super_admin ≡ false
          → not (is_one c.roles) ≡ false
          → PermissionOutcome (permission_reply (evaluate_role_permission env r c.roles code w).0) =
        λ e s n. reply-Outcome ok_state (not-false _ e) s (not-false _ n) _ refl in
      search (ends_rules, rejected, super, reply) depth 12

module _ (env : Env) (r : Request) (d : Decoded PermissionBody) (w : World env) where
  -- The account of the request's token, and the state after it was looked up.
  abbrev pub of_session : Current × World env
  of_session = current_account_by_any_session_token env (trim_space d.body.session_token) w

  abbrev Ended : Response → Type 0
  Ended = PermissionOutcome env r (trim_space d.body.permission_code) of_session.0 of_session.1

  check_session-Outcome :
      Ends
        (λ response _. Ended response)
        (check_session env r (trim_space d.body.session_token) (trim_space d.body.permission_code))
        w
  unfolding check_session
  check_session-Outcome = Ends-bind _ _ (
      Ends-state of_session.0.state _ _ _ _ (Ends-pure _ (rejected refl))
        (Ends-pure _ (rejected refl)) (Ends-pure _ (rejected refl))
        (permission_of-Outcome env r (trim_space d.body.permission_code) of_session.0 of_session.1))

  -- handleCheckPermission replies with status 0 only for a session whose account is valid and
  -- enabled: for a super administrator with the answer for one, else with the role module's
  -- evaluation of the account's single role, which is enabled; every other reply has another
  -- status.
  pub handle_check_permission-Outcome :
      PermissionOutcome env r
        (trim_space d.body.permission_code)
        of_session.0
        of_session.1
        (handle_check_permission env r d w).0
  unfolding handle_check_permission
  handle_check_permission-Outcome =
      let failed : false ≡ false = refl in
      let go : Ends (λ response _. Ended response) (handle_check_permission env r d) w =
        search (ends_rules, PermissionOutcome.rejected, check_session-Outcome) depth 12 in
      go.at
