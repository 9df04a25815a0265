-- ===== src/Tests/Services.antt =====
-- The theorems on sessions, the configuration, the internal endpoints and self-tests at concrete values.
use mathlib.Core.Bool.{not}
use omps_admin_plugin_accoun.Prelude.{
  List, ◌*◌, ◌-◌, ◌^◌, String, ◌≡◌, refl, true, ◌&&◌, none, [], ◌∷◌, arith, ◌==◌,
}
use omps_admin_plugin_accoun.Prelude.Int.{pos, negsuc, ltb_ℤ, ◌+ℤ◌}
use omps_admin_plugin_accoun.Prelude.Text.{
  atoi, read_digits, is_digit, is_space, trim_left, trim_right, trim_space,
}
use omps_admin_plugin_accoun.Prelude.Exec.{pure, ◌>>=◌, on_none, on_some}
use omps_admin_plugin_accoun.Tokens.{encode_hex, rand_hex_string, new_token}
use omps_admin_plugin_accoun.Push.{handle_admin_ping}
use omps_admin_plugin_accoun.Prelude.Dict.{Dict, lookup, get_or}
use omps_admin_plugin_accoun.Platform.{Request, Decoded, World, call}
use omps_admin_plugin_accoun.Storage.Lookup.{get_account_by_id}
use omps_admin_plugin_accoun.Storage.Changes.{
  hash_password, create_account, update_account, delete_account,
}
use omps_admin_plugin_accoun.Storage.Transactions.{create_script, update_script, delete_script}
use omps_admin_plugin_accoun.Storage.Transactions.Finished.{Refines}
use omps_admin_plugin_accoun.Storage.Transactions.Refined.{changes-Refines}
use omps_admin_plugin_accoun.Session.{
  session_redis_key, session_state, or_missing, store_session, create_session,
  current_account_by_token,
}
use omps_admin_plugin_accoun.Session.RoundTrip.{current_account_by_token-create_session}
use omps_admin_plugin_accoun.Config.{read_session_ttl}
use omps_admin_plugin_accoun.Config.Ttl.{
  ttl_seconds, read_session_ttl-in_range, read_session_ttl-overflow,
}
use omps_admin_plugin_accoun.Validation.{valid_record_id, matches_record_id}
use omps_admin_plugin_accoun.Validation.RecordId.{valid_record_id-matches_record_id}
use omps_admin_plugin_accoun.Temporary.{create_temporary_admin}
use omps_admin_plugin_accoun.Temporary.Issued.{TemporaryOutcome, create_temporary_admin-Outcome}
use omps_admin_plugin_accoun.Internal.{is_authenticated}
use omps_admin_plugin_accoun.Internal.MethodCall.{MethodBody, methods, handle_method_call_internal}
use omps_admin_plugin_accoun.Internal.MethodCall.Outcome.{
  HandlerOutcome, handle_method_call_internal-Outcome,
}
use omps_admin_plugin_accoun.Handlers.Invariants.{IsWellFormed}
use omps_admin_plugin_accoun.Selftest.Template.{TemplateVars, apply_template_vars}
use omps_admin_plugin_accoun.Selftest.Render.{after_texts, apply_template_vars-repeats}
use omps_admin_plugin_accoun.Selftest.Harness.{
  Handler, lookup_route_fuel, lookup_route_handler, mark_selftest_request,
}
use omps_admin_plugin_accoun.Selftest.RouteLookup.{
  IsRouteOf, lookup_route_handler-settled, lookup_route_handler-IsRouteOf,
  is_authenticated-mark_selftest_request,
}
use omps_admin_plugin_accoun.Selftest.Run.{run_all_selftests}
use omps_admin_plugin_accoun.Selftest.Counts.{run_all_selftests-counts, RunOutcome}
use omps_admin_plugin_accoun.Selftest.Endpoint.{handle_selftest_internal}
use omps_admin_plugin_accoun.Routes.Preserved.{handle_selftest_internal-IsWellFormed}
use omps_admin_plugin_accoun.Tests.Fixture.{env, start, env-RangesAll, accounts-IsWellFormed}
use omps_admin_plugin_accoun.Tests.Doubles.{
  database, redis, redis-RedisLaws, served, empty_world, files, harness, harness-RangesRoutes,
  decoders, refusing, table,
}

abbrev vars : TemplateVars
vars = record {
  ts = "7";
  ts_ms = "7000";
  uuid = "ab";
  range_tag = "test_req_selftest_";
  cache = [];
}

abbrev text : String
text = "a-${uuid}-${rand:4}-${rand:4}"

abbrev expanded : (String × TemplateVars) × World env
expanded = apply_template_vars env text vars start

abbrev between : List String
between = "${ts}" ∷ "${rand}" ∷ []

abbrev later : TemplateVars
later = (after_texts env between expanded.0.1 expanded.1).0

repeats_example : apply_template_vars env text later start ≡ ((expanded.0.0, later), start)
repeats_example = apply_template_vars-repeats env text between vars start expanded.1 start

counts_example : RunOutcome harness table files (run_all_selftests harness table files start).0
counts_example = run_all_selftests-counts harness table files start

settled_example :
    lookup_route_fuel 5 harness table "GET" "/api/account/hello?a=1"
    ≡ lookup_route_handler harness table "GET" "/api/account/hello?a=1"
settled_example = lookup_route_handler-settled harness table "GET" 3 "/api/account/hello?a=1"

abbrev ping : Handler env
ping r body = handle_admin_ping env

route_example : IsRouteOf table "POST" "/api/account/admin/ping" ping
unfolding lookup_route_fuel lookup on_some pure
route_example =
    lookup_route_handler-IsRouteOf harness table "POST" "/api/account/admin/ping" ping start
      harness-RangesRoutes refl

mark_example :
    is_authenticated (
      mark_selftest_request env
        (record { headers = ("X-Internal-Authenticated", "true") ∷ []; query = [] }))
    ≡ (not (get_or "" "X-Internal-Token" (("X-Internal-Authenticated", "true") ∷ []) == "")
        && get_or "" "X-Internal-Token" (("X-Internal-Authenticated", "true") ∷ []) == "internal")
mark_example =
    is_authenticated-mark_selftest_request env
      (record { headers = ("X-Internal-Authenticated", "true") ∷ []; query = [] })

session_example :
    (current_account_by_token served "ab" (create_session served "clerk001" empty_world).1).0
    ≡ or_missing (
        session_state
          (get_account_by_id served "clerk001"
            (call
              (redis.hget (session_redis_key "ab") "account_id")
              (create_session served "clerk001" empty_world).1).1).0)
unfolding create_session new_token rand_hex_string store_session call on_none on_some ◌>>=◌ pure
    encode_hex ◌+ℤ◌
session_example =
    current_account_by_token-create_session served redis redis-RedisLaws refl refl "clerk001" "ab"
      (pos 3600000001000) empty_world refl refl

abbrev one_hour : Dict String
one_hour = ("ACCOUNT_SESSION_TTL_SECONDS", "3600") ∷ []

ttl_example :
    (read_session_ttl one_hour ≡ pos (ttl_seconds one_hour * 1000000000))
    × (ltb_ℤ (pos 0) (read_session_ttl one_hour) ≡ true)
unfolding get_or lookup atoi read_digits is_digit
ttl_example = read_session_ttl-in_range one_hour (ground arith)

abbrev centuries : Dict String
centuries = ("ACCOUNT_SESSION_TTL_SECONDS", "10000000000") ∷ []

overflow_example :
    read_session_ttl centuries ≡ negsuc (2 ^ 64 - ttl_seconds centuries * 1000000000 - 1)
unfolding get_or lookup atoi read_digits is_digit
overflow_example = read_session_ttl-overflow centuries (ground arith) (ground arith)

record_id_example : valid_record_id " clerk001 " ≡ matches_record_id "clerk001"
unfolding trim_space trim_left trim_right is_space
record_id_example = valid_record_id-matches_record_id " clerk001 "

temporary_example :
    TemporaryOutcome served
      (create_temporary_admin served empty_world).0
      (create_temporary_admin served empty_world).1
temporary_example = create_temporary_admin-Outcome served empty_world

abbrev marked : Request
marked = record { headers = ("X-Internal-Authenticated", "true") ∷ []; query = [] }

abbrev asked : Decoded MethodBody
asked = record { body = record { method = "CreateTemporaryAdmin"; args = none }; err = none }

method_example :
    HandlerOutcome served marked asked empty_world
      (handle_method_call_internal served (methods served) marked asked empty_world).0
      (handle_method_call_internal served (methods served) marked asked empty_world).1
method_example = handle_method_call_internal-Outcome served marked asked empty_world

selftest_example : IsWellFormed (handle_selftest_internal harness table marked start).1.accounts
selftest_example =
    handle_selftest_internal-IsWellFormed env refl env-RangesAll harness decoders "1.0" refusing
      marked start harness-RangesRoutes (record { kept = λ r body. record { at = λ w wf. wf } })
      accounts-IsWellFormed

changes_example :
    Refines served database
      (create_script database "clerk" (hash_password served "secret") "enabled" ("role0001" ∷ []))
      empty_world
      (create_account served "clerk" "secret" "enabled" ("role0001" ∷ []) empty_world).0
      (create_account served "clerk" "secret" "enabled" ("role0001" ∷ []) empty_world).1
    × Refines served database
        (update_script database " id " "enabled" ("role0001" ∷ []))
        empty_world
        (update_account served " id " "enabled" ("role0001" ∷ []) empty_world).0
        (update_account served " id " "enabled" ("role0001" ∷ []) empty_world).1
    × Refines served database
        (delete_script database "id")
        empty_world
        (delete_account served " id " empty_world).0
        (delete_account served " id " empty_world).1
unfolding trim_space trim_left trim_right is_space
changes_example =
    changes-Refines served database refl "clerk" "secret" "enabled" " id " ("role0001" ∷ [])
      empty_world
