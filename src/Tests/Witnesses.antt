-- ===== src/Tests/Witnesses.antt =====
-- The theorems at concrete requests of the super administrator `root`.
use Prim.Native.String.{len}
use omps_admin_plugin_accoun.Prelude.{
  String, [], arith, drop, is_empty, none, refl, some, take, true, ℕ, ◌||◌, ◌∷◌, ◌≡◌,
}
use omps_admin_plugin_accoun.Platform.{Decoded, Request, World, call}
use omps_admin_plugin_accoun.Tokens.{new_short_id}
use omps_admin_plugin_accoun.Tokens.Short.{new_short_id-valid_record_id}
use omps_admin_plugin_accoun.Validation.{
  is_record_id_char, matches_record_id, matches_uuid, normalize_status, parse_page, valid_account,
  valid_password, valid_record_id, valid_uuid,
}
use omps_admin_plugin_accoun.Access.{
  clean_and_validate_roles, current_operator, require_account_manage_token, validate_role,
}
use omps_admin_plugin_accoun.Access.Verdict.{ManageVerdict, require_account_manage_token-Verdict}
use omps_admin_plugin_accoun.Access.Cleaned.{RolesVerdict, clean_and_validate_roles-Verdict}
use omps_admin_plugin_accoun.Handlers.Create.{CreateBody, handle_account_create}
use omps_admin_plugin_accoun.Handlers.Create.Outcome as Create
use omps_admin_plugin_accoun.Handlers.Update.{UpdateBody, handle_account_update, update_reply}
use omps_admin_plugin_accoun.Handlers.Update.Outcome as Update
use omps_admin_plugin_accoun.Handlers.ResetPassword.{ResetBody, handle_reset_password}
use omps_admin_plugin_accoun.Handlers.ResetPassword.Outcome as Reset
use omps_admin_plugin_accoun.Handlers.Delete.{DeleteBody, handle_account_delete}
use omps_admin_plugin_accoun.Handlers.Delete.Outcome as Delete
use omps_admin_plugin_accoun.Handlers.Invariants.{
  IsWellFormed, handle_account_create-IsWellFormed, handle_account_update-IsWellFormed,
  handle_reset_password-IsWellFormed, handle_account_delete-IsWellFormed,
}
use omps_admin_plugin_accoun.Account.{AccountRoleResponse, Found, ok, on_error}
use omps_admin_plugin_accoun.Json.{null, write_json}
use omps_admin_plugin_accoun.RoleClient.Evaluated.{
  role_ids_of, all_enabled, evaluate_role_permission_sound,
}
use omps_admin_plugin_accoun.Handlers.Delete.Success.{handle_account_delete-succeeds}
use omps_admin_plugin_accoun.Handlers.Login.{Credentials, handle_login, handle_validate_password}
use omps_admin_plugin_accoun.Handlers.Me.{handle_me}
use omps_admin_plugin_accoun.Handlers.Query.{handle_account_list, handle_account_detail}
use omps_admin_plugin_accoun.Handlers.CheckPermission.{PermissionBody, handle_check_permission}
use omps_admin_plugin_accoun.Handlers.CheckPermission.Outcome.{
  PermissionOutcome, of_session, handle_check_permission-Outcome,
}
use omps_admin_plugin_accoun.Handlers.ReadOnly.{readers-unchanged}
use omps_admin_plugin_accoun.Handlers.Reachable.{
  here, then_step, create, delete, Reaches-IsWellFormed,
}
use omps_admin_plugin_accoun.Prelude.Exec.{on_none, on_some, pure, ◌>>=◌}
use omps_admin_plugin_accoun.Prelude.Dict.{get_or, insert, lookup}
use omps_admin_plugin_accoun.Prelude.Text.{
  atoi, is_digit, is_hex_digit, is_lower_letter, is_space, is_upper_letter, read_digits, trim_left,
  trim_right, trim_space,
}
use omps_admin_plugin_accoun.Session.{
  current_account_by_any_session_token, current_account_by_token, current_project_admin_account,
  current_project_admin_account_by_token, get_account_by_project_admin_session_state,
}
use omps_admin_plugin_accoun.Storage.Lookup.{
  found_with, get_account_by_account, get_account_by_id, get_account_memory, search_username,
}
use omps_admin_plugin_accoun.Storage.Roles.{normalize_account_roles}
use omps_admin_plugin_accoun.RoleClient.{
  admin_role_check_permission, admin_role_detail, check_role, do_admin_role_request,
  normalize_role_status, roles_available,
}
use omps_admin_plugin_accoun.RoleClient.Permissions.{
  check_round, evaluate_loop, evaluate_role_permission, evaluate_round,
}
use omps_admin_plugin_accoun.Prelude.Int.{pos}
use omps_admin_plugin_accoun.Account.{AccountResponse}
use omps_admin_plugin_accoun.Storage.Changes.{account_to_response, with_status}
use omps_admin_plugin_accoun.Storage.Listing.{page, cut_page}
use omps_admin_plugin_accoun.Storage.Paging.{IsPage, parse_page-IsPage, cut_page-within}
use omps_admin_plugin_accoun.Handlers.Create.Outcome.{created_for}
use omps_admin_plugin_accoun.Handlers.Create.Success.{IsCreated, handle_account_create-succeeds}
use omps_admin_plugin_accoun.Handlers.Update.Success.{handle_account_update-succeeds}
use omps_admin_plugin_accoun.Tests.Fixture.{
  clerk, root, env, request, start, env-RangesAll, accounts-IsWellFormed,
}

abbrev new_clerk : Decoded CreateBody
new_clerk = record {
  body = record {
    operator_session_token = "";
    account = " second ";
    password = "secret1";
    status = "enabled";
    role_ids = "role0003" ∷ [];
  };
  err = none;
}

abbrev disable_clerk : Decoded UpdateBody
disable_clerk = record {
  body = record {
    operator_session_token = "";
    account_id = "clerk001";
    status = "disabled";
    role_ids = "role0003" ∷ [];
  };
  err = none;
}

abbrev new_password : Decoded ResetBody
new_password = record {
  body = record { operator_session_token = ""; account_id = "clerk001"; new_password = "secret2" };
  err = none;
}

abbrev drop_clerk : Decoded DeleteBody
drop_clerk = record {
  body = record { operator_session_token = ""; account_id = "clerk001" };
  err = none;
}

create_example :
    Create.HandlerOutcome env refl env-RangesAll request new_clerk.body start
      (handle_account_create env request new_clerk start).0
      (handle_account_create env request new_clerk start).1
create_example = Create.handle_account_create-Outcome env refl env-RangesAll request new_clerk start

update_example :
    Update.HandlerOutcome env refl request disable_clerk.body start
      (handle_account_update env request disable_clerk start).0
      (handle_account_update env request disable_clerk start).1
update_example =
    Update.handle_account_update-Outcome env refl request disable_clerk start
      accounts-IsWellFormed.keyed

reset_example :
    Reset.HandlerOutcome env refl request new_password.body start
      (handle_reset_password env request new_password start).0
      (handle_reset_password env request new_password start).1
reset_example =
    Reset.handle_reset_password-Outcome env refl request new_password start
      accounts-IsWellFormed.keyed

delete_example :
    Delete.HandlerOutcome env refl request drop_clerk.body start
      (handle_account_delete env request drop_clerk start).0
      (handle_account_delete env request drop_clerk start).1
delete_example = Delete.handle_account_delete-Outcome env refl request drop_clerk start

create_wf_example : IsWellFormed (handle_account_create env request new_clerk start).1.accounts
create_wf_example =
    handle_account_create-IsWellFormed env refl env-RangesAll request new_clerk start
      accounts-IsWellFormed

update_wf_example : IsWellFormed (handle_account_update env request disable_clerk start).1.accounts
update_wf_example =
    handle_account_update-IsWellFormed env refl request disable_clerk start accounts-IsWellFormed

reset_wf_example : IsWellFormed (handle_reset_password env request new_password start).1.accounts
reset_wf_example =
    handle_reset_password-IsWellFormed env refl request new_password start accounts-IsWellFormed

delete_wf_example : IsWellFormed (handle_account_delete env request drop_clerk start).1.accounts
delete_wf_example =
    handle_account_delete-IsWellFormed env refl request drop_clerk start accounts-IsWellFormed

manage_example :
    ManageVerdict env request "" 2221 2222 2227 start
      (require_account_manage_token env request "" 2221 2222 2227 start).0
manage_example = require_account_manage_token-Verdict env request "" 2221 2222 2227 start

roles_example :
    RolesVerdict env request
      (" role0003 " ∷ [])
      2225
      2226
      start
      (clean_and_validate_roles env request (" role0003 " ∷ []) 2225 2226 start).0
roles_example = clean_and_validate_roles-Verdict env request 2225 2226 start (" role0003 " ∷ [])

short_id_example :
    (len (new_short_id env start).0 ≡ 12) × (valid_record_id (new_short_id env start).0 ≡ true)
short_id_example = new_short_id-valid_record_id env start

succeed_example : (handle_account_delete env request drop_clerk start).0 ≡ write_json 0 null "ok"
unfolding pure ◌>>=◌ on_none on_some lookup get_or is_space trim_left trim_right trim_space is_digit
    is_lower_letter is_upper_letter is_hex_digit call on_error matches_uuid is_record_id_char
    matches_record_id valid_uuid valid_record_id current_account_by_any_session_token
    current_account_by_token current_project_admin_account_by_token
    get_account_by_project_admin_session_state current_project_admin_account get_account_by_id
    get_account_memory found_with normalize_account_roles current_operator
    require_account_manage_token
succeed_example =
    handle_account_delete-succeeds env refl request drop_clerk root start
      (require_account_manage_token env request "" 2291 2292 2297 start).1 refl refl refl refl refl
      refl refl

abbrev credentials : Decoded Credentials
credentials = record { body = record { account = "clerk"; password = "secret1" }; err = none }

abbrev permission : Decoded PermissionBody
permission = record {
  body = record { session_token = "token"; permission_code = "admin_account.manage" };
  err = none;
}

check_example :
    PermissionOutcome env request
      (trim_space "admin_account.manage")
      (of_session env request permission start).0
      (of_session env request permission start).1
      (handle_check_permission env request permission start).0
check_example = handle_check_permission-Outcome env request permission start

abbrev role_answer : AccountRoleResponse
role_answer = record { role_id = "role0002"; role_status = "enabled" }

evaluate_example :
    (role_ids_of (role_answer ∷ []) ≡ ("role0002" ∷ []))
    × (is_empty {A = String} ("role0002" ∷ []) || all_enabled (role_answer ∷ []) ≡ true)
unfolding pure ◌>>=◌ on_none call on_error insert is_space trim_left trim_right trim_space
    do_admin_role_request admin_role_detail admin_role_check_permission normalize_role_status
    check_round evaluate_round evaluate_loop evaluate_role_permission
evaluate_example =
    evaluate_role_permission_sound env request "admin_account.manage" ("role0002" ∷ [])
      ("role0002" ∷ []) (role_answer ∷ []) start refl

readers_example :
    ((handle_login env request credentials start).1.accounts ≡ start.accounts)
    × ((handle_validate_password env request credentials start).1.accounts ≡ start.accounts)
    × ((handle_check_permission env request permission start).1.accounts ≡ start.accounts)
    × ((handle_me env request start).1.accounts ≡ start.accounts)
    × ((handle_account_list env request start).1.accounts ≡ start.accounts)
    × ((handle_account_detail env request start).1.accounts ≡ start.accounts)
readers_example = readers-unchanged env request credentials permission start

abbrev after_two : World env
after_two =
    (handle_account_delete env request drop_clerk
      (handle_account_create env request new_clerk start).1).1

reachable_example : IsWellFormed after_two.accounts
reachable_example =
    Reaches-IsWellFormed env refl env-RangesAll start after_two
      (then_step (then_step here (create request new_clerk)) (delete request drop_clerk))
      accounts-IsWellFormed

abbrev page_request : Request
page_request = record { headers = []; query = ("page", "2") ∷ ("page_size", "10") ∷ [] }

page_example : IsPage (pos 2, pos 10)
unfolding parse_page get_or lookup atoi read_digits is_digit
page_example = parse_page-IsPage page_request (pos 2, pos 10) refl

abbrev item : AccountResponse
item = account_to_response env clerk ("role0002" ∷ [])

cut_example :
    cut_page (item ∷ item ∷ item ∷ []) (pos 2) (pos 2)
    ≡ page (take 1 (drop 2 (item ∷ item ∷ item ∷ []))) 3
cut_example =
    cut_page-within (item ∷ item ∷ item ∷ []) 2 2 2 (ground arith) (ground arith) refl
      (ground arith) (ground arith)

-- The state after the operator of a request was granted, and after its roles were, too.
abbrev after_operator : ℕ → ℕ → ℕ → World env
after_operator a b c = (require_account_manage_token env request "" a b c start).1

abbrev after_roles : ℕ → ℕ → World env → World env
after_roles a b w = (clean_and_validate_roles env request ("role0003" ∷ []) a b w).1

abbrev second_at : World env
second_at =
    (get_account_by_account env "second" (after_roles 2225 2226 (after_operator 2221 2222 2227))).1

created_example :
    IsCreated env refl new_clerk.body
      ("role0003" ∷ [])
      second_at
      (handle_account_create env request new_clerk start)
unfolding pure ◌>>=◌ on_none on_some lookup get_or insert is_space trim_left trim_right trim_space
    is_digit is_lower_letter is_upper_letter is_hex_digit call on_error matches_uuid
    is_record_id_char matches_record_id valid_uuid valid_record_id valid_account valid_password
    normalize_status current_account_by_any_session_token current_account_by_token
    current_project_admin_account_by_token get_account_by_project_admin_session_state
    current_project_admin_account get_account_by_id get_account_memory found_with
    get_account_by_account search_username normalize_account_roles do_admin_role_request
    admin_role_detail normalize_role_status roles_available check_role current_operator
    require_account_manage_token validate_role clean_and_validate_roles
created_example =
    handle_account_create-succeeds env refl request new_clerk root ("role0003" ∷ []) start
      (after_operator 2221 2222 2227) (after_roles 2225 2226 (after_operator 2221 2222 2227)) refl
      refl refl refl refl refl

abbrev clerk_at : Found × World env
clerk_at = get_account_by_id env "clerk001" (after_roles 2255 2256 (after_operator 2251 2252 2258))

updated_example :
    (handle_account_update env request disable_clerk start).0
    ≡ update_reply env ("role0003" ∷ []) (
        ok (
          some (
            with_status clerk_at.0.acc
              (normalize_status "disabled")
              (env.now clerk_at.1.outside).0)))
unfolding pure ◌>>=◌ on_none on_some lookup get_or insert is_space trim_left trim_right trim_space
    is_digit is_lower_letter is_upper_letter is_hex_digit call on_error matches_uuid
    is_record_id_char matches_record_id valid_uuid valid_record_id valid_account valid_password
    normalize_status current_account_by_any_session_token current_account_by_token
    current_project_admin_account_by_token get_account_by_project_admin_session_state
    current_project_admin_account get_account_by_id get_account_memory found_with
    get_account_by_account search_username normalize_account_roles do_admin_role_request
    admin_role_detail normalize_role_status roles_available check_role current_operator
    require_account_manage_token validate_role clean_and_validate_roles
updated_example =
    handle_account_update-succeeds env refl request disable_clerk root ("role0003" ∷ []) start
      (after_operator 2251 2252 2258) (after_roles 2255 2256 (after_operator 2251 2252 2258)) refl
      refl refl refl refl refl refl refl refl
