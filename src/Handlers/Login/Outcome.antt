-- ===== src/Handlers/Login/Outcome.antt =====
-- Every way in which `handleLogin` and `handleValidatePassword` end.
use mathlib.Core.Bool.{not}
use omps_admin_plugin_accoun.Prelude.{
  String, ◌≡◌, refl, ap, ◌∙◌, Bool, true, false, ◌||◌, arith, ◌==◌, not-false,
}
use omps_admin_plugin_accoun.Prelude.Int.{ℤ}
use omps_admin_plugin_accoun.Prelude.Text.{trim_space}
use omps_admin_plugin_accoun.Account.{Found, ok}
use omps_admin_plugin_accoun.Json.{Response, write_json}
use omps_admin_plugin_accoun.Platform.{Request, Decoded, Env, World}
use omps_admin_plugin_accoun.Platform.Ends.{Ends, ends_rules}
use omps_admin_plugin_accoun.RoleClient.{roles_available}
use omps_admin_plugin_accoun.Storage.Lookup.{get_account_by_account}
use omps_admin_plugin_accoun.Storage.Changes.{verify_password}
use omps_admin_plugin_accoun.Session.{create_session}
use omps_admin_plugin_accoun.Access.Verdict.{is_success}
use omps_admin_plugin_accoun.Handlers.Login.{
  Credentials, login_json, open_session, login_found, handle_login, identity_json, validate_found,
  handle_validate_password,
}

module _ (env : Env) (r : Request) (password : String) (f : Found) (w : World env) where
  -- The account may log in: it is there, with that password, enabled, and its roles are enabled.
  pub record IsAdmitted : Type 0 where
    pub exists : f.exists ≡ true
    pub verified : verify_password env f.acc.password_hash password ≡ true
    pub enabled : f.acc.status == "enabled" ≡ true
    pub available : (roles_available env r f.roles w).0 ≡ ok true

  admitted :
      not f.exists || not (verify_password env f.acc.password_hash password) ≡ false
      → not (f.acc.status == "enabled") ≡ false
      → (b : Bool) → (roles_available env r f.roles w).0 ≡ ok b
      → b ≡ true
      → IsAdmitted
  admitted h e b h' t = record {
    exists = ground (arith, h);
    verified = ground (arith, h);
    enabled = not-false _ e;
    available = h' ∙ ap ok t;
  }

  pub data LoginOutcome : Response → Type 0 where
    rejected : {response : Response} → is_success response ≡ false → LoginOutcome response
    logged_in :
        (token : String) (expires_at : ℤ)
        → IsAdmitted
        → (create_session env f.acc.id (roles_available env r f.roles w).1).0
          ≡ ok (token, expires_at)
        → LoginOutcome (write_json 0 (login_json env f.acc f.roles token expires_at) "ok")

  open_session-Outcome :
      IsAdmitted
      → Ends
          (λ response _. LoginOutcome response)
          (open_session env f.acc f.roles)
          (roles_available env r f.roles w).1
  unfolding open_session
  open_session-Outcome a =
      let failed : false ≡ false = refl in
      let done : (s : String × ℤ)
          → (create_session env f.acc.id (roles_available env r f.roles w).1).0 ≡ ok s
          → LoginOutcome (write_json 0 (login_json env f.acc f.roles s.0 s.1) "ok") =
        λ s h. logged_in s.0 s.1 a h in
      search (ends_rules, rejected, done) depth 12

  pub login_found-Outcome :
      Ends (λ response _. LoginOutcome response) (login_found env r password f) w
  unfolding login_found
  login_found-Outcome =
      let failed : false ≡ false = refl in
      search (ends_rules, rejected, admitted, open_session-Outcome) depth 12

  pub data ValidateOutcome : Response → Type 0 where
    rejected : {response : Response} → is_success response ≡ false → ValidateOutcome response
    validated : IsAdmitted → ValidateOutcome (write_json 0 (identity_json env f) "ok")

  pub validate_found-Outcome :
      Ends (λ response _. ValidateOutcome response) (validate_found env r password f) w
  unfolding validate_found
  validate_found-Outcome =
      let failed : false ≡ false = refl in
      search (ends_rules, ValidateOutcome.rejected, validated, admitted) depth 12

module _ (env : Env) (r : Request) (d : Decoded Credentials) (w : World env) where
  -- What the look-up of the request's account name finds, and the state after it.
  abbrev pub looked_up : Found × World env
  looked_up = get_account_by_account env (trim_space d.body.account) w

  -- handleLogin replies with status 0 only if the look-up of the trimmed account name found an
  -- enabled account with that password whose roles are all available, and a session was created
  -- for that account, which the reply holds; every other reply has another status.
  pub handle_login-Outcome :
      LoginOutcome env r d.body.password looked_up.0 looked_up.1 (handle_login env r d w).0
  unfolding handle_login
  handle_login-Outcome =
      let failed : false ≡ false = refl in
      let found = login_found-Outcome env r d.body.password looked_up.0 looked_up.1 in
      let go : Ends
          (λ response _. LoginOutcome env r d.body.password looked_up.0 looked_up.1 response)
          (handle_login env r d) w =
        search (ends_rules, LoginOutcome.rejected, found) depth 12 in
      go.at

  -- handleValidatePassword replies with status 0 and the account's identity only if the look-up of
  -- the trimmed account name found an enabled account with that password whose roles are all
  -- available; every other reply has another status.
  pub handle_validate_password-Outcome :
      ValidateOutcome env r d.body.password looked_up.0 looked_up.1
        (handle_validate_password env r d w).0
  unfolding handle_validate_password
  handle_validate_password-Outcome =
      let failed : false ≡ false = refl in
      let found = validate_found-Outcome env r d.body.password looked_up.0 looked_up.1 in
      let go : Ends
          (λ response _. ValidateOutcome env r d.body.password looked_up.0 looked_up.1 response)
          (handle_validate_password env r d) w =
        search (ends_rules, ValidateOutcome.rejected, found) depth 12 in
      go.at
