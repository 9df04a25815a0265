-- ===== src/Tests/Login.antt =====
-- The log-in of an account whose password, state and role are good, over a Redis in memory.
use omps_admin_plugin_accoun.Prelude.{◌≡◌, refl, true, none, some, [], ◌∷◌}
use omps_admin_plugin_accoun.Prelude.Int.{pos}
use omps_admin_plugin_accoun.Prelude.Exec.{on_none, on_some, pure, ◌>>=◌}
use omps_admin_plugin_accoun.Prelude.Dict.{get_or, insert, lookup}
use omps_admin_plugin_accoun.Prelude.Text.{
  is_digit, is_lower_letter, is_space, is_upper_letter, trim_left, trim_right, trim_space,
}
use omps_admin_plugin_accoun.Account.{AccountRecord, ok, on_error}
use omps_admin_plugin_accoun.Tokens.{encode_hex, new_token, rand_hex_string}
use omps_admin_plugin_accoun.Validation.{valid_account, valid_password}
use omps_admin_plugin_accoun.RoleClient.{
  admin_role_detail, check_role, do_admin_role_request, normalize_role_status, roles_available,
}
use omps_admin_plugin_accoun.Session.{create_session, store_session}
use omps_admin_plugin_accoun.Storage.Lookup.{
  found_with, get_account_by_account, get_account_memory, search_username,
}
use omps_admin_plugin_accoun.Storage.Roles.{normalize_account_roles}
use omps_admin_plugin_accoun.Storage.Changes.{hash_password, verify_password}
use omps_admin_plugin_accoun.Platform.{Decoded, Env, World, call}
use omps_admin_plugin_accoun.Access.Verdict.{is_success}
use omps_admin_plugin_accoun.Handlers.Login.{
  Credentials, handle_login, handle_validate_password, login_found, open_session, validate_found,
}
use omps_admin_plugin_accoun.Handlers.Login.Outcome.{
  LoginOutcome, ValidateOutcome, looked_up, handle_login-Outcome, handle_validate_password-Outcome,
}
use omps_admin_plugin_accoun.Tests.Fixture.{clerk, request}
use omps_admin_plugin_accoun.Tests.Doubles.{served}

-- Sessions in Redis, accounts in memory, and a role module that has every role enabled.
abbrev cached : Env
cached = record served {
  db = none;
  internal_request = some (λ method target payload headers o. (ok (pos 200, target), o));
  unmarshal_detail = λ text.
      ok (record { role_id = "role0002"; status = "enabled"; deleted_at = ""; permissions = [] });
  unmarshal_check = λ text. ok (record { allowed = true; role_status = "enabled" });
}

-- The hash of the double is the length of the password.
abbrev known : AccountRecord
known = record clerk { password_hash = "07" }

abbrev with_known : World cached
with_known = record {
  maps = record { accounts = ("clerk001", known) ∷ []; roles = ("clerk001", "role0002" ∷ []) ∷ [] };
  outside = [];
}

abbrev credentials : Decoded Credentials
credentials = record { body = record { account = "clerk"; password = "secret1" }; err = none }

login_status : is_success (handle_login cached request credentials with_known).0 ≡ true
unfolding handle_login handle_validate_password login_found open_session validate_found pure ◌>>=◌
    on_none on_some on_error call lookup get_or is_space trim_left trim_right trim_space
    valid_account valid_password get_account_by_account search_username get_account_memory
    found_with insert normalize_account_roles roles_available check_role do_admin_role_request
    verify_password admin_role_detail hash_password encode_hex create_session store_session
    new_token rand_hex_string normalize_role_status is_digit is_lower_letter is_upper_letter
login_status = refl

validate_status :
    is_success (handle_validate_password cached request credentials with_known).0 ≡ true
unfolding handle_login handle_validate_password login_found open_session validate_found pure ◌>>=◌
    on_none on_some on_error call lookup get_or is_space trim_left trim_right trim_space
    valid_account valid_password get_account_by_account search_username get_account_memory
    found_with insert normalize_account_roles roles_available check_role do_admin_role_request
    verify_password admin_role_detail hash_password encode_hex create_session store_session
    new_token rand_hex_string normalize_role_status is_digit is_lower_letter is_upper_letter
validate_status = refl

login_example :
    LoginOutcome cached request "secret1"
      (looked_up cached request credentials with_known).0
      (looked_up cached request credentials with_known).1
      (handle_login cached request credentials with_known).0
login_example = handle_login-Outcome cached request credentials with_known

validate_example :
    ValidateOutcome cached request "secret1"
      (looked_up cached request credentials with_known).0
      (looked_up cached request credentials with_known).1
      (handle_validate_password cached request credentials with_known).0
validate_example = handle_validate_password-Outcome cached request credentials with_known
