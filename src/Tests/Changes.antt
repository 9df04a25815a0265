-- ===== src/Tests/Changes.antt =====
-- More theorems on changes of accounts, and on pages past the numbers of 64 bits.
use omps_admin_plugin_accoun.Prelude.{
  String, List, ℕ, ◌≡◌, ◌≢◌, refl, true, false, none, [], ◌∷◌, arith, eq_iff,
}
use omps_admin_plugin_accoun.Platform.{Decoded, World, call}
use omps_admin_plugin_accoun.Validation.{
  is_record_id_char, matches_record_id, matches_uuid, normalize_status, valid_account,
  valid_password, valid_record_id, valid_uuid,
}
use omps_admin_plugin_accoun.Access.{
  clean_and_validate_roles, current_operator, require_account_manage_token, validate_role,
}
use omps_admin_plugin_accoun.Handlers.Update.{UpdateBody, handle_account_update}
use omps_admin_plugin_accoun.Handlers.ResetPassword.{ResetBody, handle_reset_password}
use omps_admin_plugin_accoun.Account.{on_error}
use omps_admin_plugin_accoun.Json.{null, write_json}
use omps_admin_plugin_accoun.Prelude.Exec.{on_none, on_some, pure, ◌>>=◌}
use omps_admin_plugin_accoun.Prelude.Dict.{get_or, insert, lookup}
use omps_admin_plugin_accoun.Prelude.Text.{
  is_digit, is_hex_digit, is_lower_letter, is_space, is_upper_letter, trim_left, trim_right,
  trim_space,
}
use omps_admin_plugin_accoun.Session.{
  current_account_by_any_session_token, current_account_by_token, current_project_admin_account,
  current_project_admin_account_by_token, get_account_by_project_admin_session_state,
}
use omps_admin_plugin_accoun.Storage.Lookup.{
  found_with, get_account_by_account, get_account_by_id, get_account_memory, search_username,
}
use omps_admin_plugin_accoun.Storage.Roles.{normalize_account_roles}
use omps_admin_plugin_accoun.RoleClient.{
  admin_role_detail, check_role, do_admin_role_request, normalize_role_status, roles_available,
}
use omps_admin_plugin_accoun.Prelude.Int.{pos}
use omps_admin_plugin_accoun.Account.{AccountResponse}
use omps_admin_plugin_accoun.Storage.Changes.{account_to_response}
use omps_admin_plugin_accoun.Storage.Listing.{cut_page}
use omps_admin_plugin_accoun.Tests.Fixture.{clerk, root, env, request, start, accounts-IsWellFormed}
use omps_admin_plugin_accoun.Handlers.ResetPassword.RoundTrip.{
  HasPassword, handle_reset_password-verify_password,
}
use omps_admin_plugin_accoun.Handlers.Update.Untrimmed.{handle_account_update-untrimmed}
use omps_admin_plugin_accoun.Storage.Listing.{out_of_range}
use omps_admin_plugin_accoun.Storage.Normalized.{NormalOutcome, normalize_account_roles-Outcome}
use omps_admin_plugin_accoun.Storage.Paging.{cut_page-overflow}

abbrev item : AccountResponse
item = account_to_response env clerk ("role0002" ∷ [])

far_example : cut_page (item ∷ []) (pos 4611686018427387905) (pos 2) ≡ out_of_range
far_example =
    cut_page-overflow (item ∷ []) 4611686018427387905 2 9223372036854775808 (ground arith)
      (ground arith) refl (ground arith) (ground arith)

abbrev new_password : Decoded ResetBody
new_password = record {
  body = record { operator_session_token = ""; account_id = "clerk001"; new_password = "secret2" };
  err = none;
}

-- The state after the operator of a request was granted, and after its roles were, too.
abbrev after_operator : ℕ → ℕ → ℕ → World env
after_operator a b c = (require_account_manage_token env request "" a b c start).1

abbrev after_roles : ℕ → ℕ → World env → World env
after_roles a b w = (clean_and_validate_roles env request ("role0003" ∷ []) a b w).1

password_example :
    HasPassword env refl "clerk001" "secret2"
      (get_account_by_id env "clerk001" (after_operator 2261 2262 2267)).0.acc
      (handle_reset_password env request new_password start).0
      (handle_reset_password env request new_password start).1
unfolding pure ◌>>=◌ on_none on_some lookup get_or insert is_space trim_left trim_right trim_space
    is_digit is_lower_letter is_upper_letter is_hex_digit call on_error matches_uuid
    is_record_id_char matches_record_id valid_uuid valid_record_id valid_account valid_password
    normalize_status current_account_by_any_session_token current_account_by_token
    current_project_admin_account_by_token get_account_by_project_admin_session_state
    current_project_admin_account get_account_by_id get_account_memory found_with
    get_account_by_account search_username normalize_account_roles do_admin_role_request
    admin_role_detail normalize_role_status roles_available check_role current_operator
    require_account_manage_token validate_role clean_and_validate_roles
password_example =
    handle_reset_password-verify_password env refl request new_password root start
      (after_operator 2261 2262 2267) accounts-IsWellFormed.keyed refl refl refl refl refl refl refl
      refl

abbrev padded : Decoded UpdateBody
padded = record {
  body = record {
    operator_session_token = "";
    account_id = " clerk001";
    status = "disabled";
    role_ids = "role0003" ∷ [];
  };
  err = none;
}

is_padded : trim_space " clerk001" ≢ " clerk001"
unfolding is_space trim_left trim_right trim_space
is_padded same =
    let equal : false ≡ true = (eq_iff "clerk001" " clerk001").1 same in ground (arith, equal)

padded_example :
    ((handle_account_update env request padded start).0 ≡ write_json 2254 null "账号不存在")
    × ((handle_account_update env request padded start).1.accounts
        ≡ (after_roles 2255 2256 (after_operator 2251 2252 2258)).accounts)
unfolding pure ◌>>=◌ on_none on_some lookup get_or insert is_space trim_left trim_right trim_space
    is_digit is_lower_letter is_upper_letter is_hex_digit call on_error matches_uuid
    is_record_id_char matches_record_id valid_uuid valid_record_id valid_account valid_password
    normalize_status current_account_by_any_session_token current_account_by_token
    current_project_admin_account_by_token get_account_by_project_admin_session_state
    current_project_admin_account get_account_by_id get_account_memory found_with
    get_account_by_account search_username normalize_account_roles do_admin_role_request
    admin_role_detail normalize_role_status roles_available check_role current_operator
    require_account_manage_token validate_role clean_and_validate_roles
padded_example =
    handle_account_update-untrimmed env refl request padded root ("role0003" ∷ []) start
      (after_operator 2251 2252 2258) (after_roles 2255 2256 (after_operator 2251 2252 2258))
      accounts-IsWellFormed.keyed refl refl refl refl is_padded refl refl refl refl

abbrev bound : List String
bound = " role0001 " ∷ "role0002" ∷ []

normalized_example :
    NormalOutcome env "clerk001" bound
      (normalize_account_roles env "clerk001" bound start).0
      (normalize_account_roles env "clerk001" bound start).1
normalized_example = normalize_account_roles-Outcome env "clerk001" bound start
