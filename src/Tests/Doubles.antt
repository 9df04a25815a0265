-- ===== src/Tests/Doubles.antt =====
-- Doubles of Redis, of the database and of Go's library for the tests.
use Prim.Native.String.{len}
use omps_admin_plugin_accoun.Prelude.{◌%◌, String, refl, ap, ◌∙◌, false, none, some, List, [], ◌∷◌}
use omps_admin_plugin_accoun.Prelude.Int.{pos}
use omps_admin_plugin_accoun.Prelude.Dict.{Dict, lookup, insert, values, lookup-insert_same}
use omps_admin_plugin_accoun.Prelude.Exec.{on_none}
use omps_admin_plugin_accoun.Account.{ok, fail, failure}
use omps_admin_plugin_accoun.Json.{null, write_json}
use omps_admin_plugin_accoun.Platform.{Database, Redis, Env, World}
use omps_admin_plugin_accoun.Session.RoundTrip.{RedisLaws}
use omps_admin_plugin_accoun.Selftest.Harness.{Handler, SelftestCase, DirEntry, Harness}
use omps_admin_plugin_accoun.Selftest.RouteLookup.{RangesRoutes}
use omps_admin_plugin_accoun.Routes.{Decoders, routes}
use omps_admin_plugin_accoun.Tests.Fixture.{env}

-- Redis as its hashes by key.
abbrev pub Hashes : Type 0
Hashes = Dict (Dict String)

abbrev pub redis : Redis Hashes
redis = record {
  hset = λ key fields o. (none, insert key fields o);
  expire = λ key ttl o. (none, o);
  hget = λ key name o. (ok (on_none (lookup key o) none λ fields. lookup name fields), o);
}

pub redis-RedisLaws : RedisLaws redis
unfolding on_none
redis-RedisLaws = record {
  hset-hget = λ key name value fields o _ h.
      ap (λ m. ok (on_none m none λ fields. lookup name fields)) (lookup-insert_same key fields o)
      ∙ ap ok h;
  expire-hget = λ key asked name ttl o _ _. refl;
}

-- A database that takes every statement and has no rows.
abbrev pub database : Database Hashes Hashes
database = record {
  begin_tx = λ o. (ok o, o);
  commit = λ tx o. (none, tx);
  tx_delete_bindings = λ id o. (none, o);
  tx_insert_binding = λ id role o. (none, o);
  tx_delete_account = λ id o. (ok 0, o);
  tx_insert_account = λ account hash status o. (fail (failure "no insert"), o);
  tx_update_status = λ id status o. (ok none, o);
  select_by_id = λ id o. (ok none, o);
  select_by_account = λ account o. (ok none, o);
  select_role_ids = λ id o. (ok [], o);
  delete_other_bindings = λ id role o. (none, o);
  count_accounts = λ status keyword o. (ok 0, o);
  select_page = λ status keyword limit offset o. (ok [], o);
  update_password_hash = λ id hash o. (ok none, o);
  upsert_temporary = λ account hash expires seed o. (none, o);
  disable_expired_temporary = λ o. (none, o);
  select_admin_session = λ token o. (ok none, o);
  exec_schema = λ i o. (none, o);
}

-- The environment with both.
abbrev pub served : Env
served = record {
  Outside = Hashes;
  Tx = Hashes;
  db = some database;
  rdb = some redis;
  internal_request = none;
  lookup_project_admin_session = none;
  push = none;
  emit = none;
  session_ttl = pos 3600000000000;
  admin_api_key = "key";
  now = λ o. (pos 1000, o);
  read_random = λ n o. (some (0xab ∷ []), o);
  range_accounts = λ m o. (values m, o);
  range_codes = λ codes o. (codes, o);
  format_time = λ t. "now";
  format_duration = λ t. "1s";
  to_lower = λ s. s;
  sha256 = λ s. len s % 256 ∷ [];
  query_escape = λ s. s;
  marshal = λ body. ok "body";
  unmarshal_response = λ text. ok (record { status = pos 0; payload = text });
  unmarshal_detail = λ text. fail (failure "no role");
  unmarshal_check = λ text. fail (failure "no check");
  getenv = λ name. "internal";
  sort_strings = λ ss. ss;
  sort_slice = λ less items. items;
}

abbrev pub empty_world : World served
empty_world = record { maps = record { accounts = []; roles = [] }; outside = [] }

-- One test file with one case beside a file that is no test.
abbrev pub files : List DirEntry
files =
    (record { name = "ping.test.json"; is_dir = false })
    ∷ (record { name = "README.md"; is_dir = false })
    ∷ []

abbrev pub ping_case : SelftestCase
ping_case = record {
  name = "ping";
  kind = "";
  method = "POST";
  path = "/api/account/admin/ping";
  headers = ("X-Internal-Token", "${internal_token}") ∷ [];
  body = "";
  expect_status = some (pos 200);
  expect_field = [];
  expect_contains = "pong";
}

abbrev pub harness : Harness env
harness = record {
  read_dir = ok files;
  read_file = λ name. ok "{}";
  unmarshal_file =
      λ text. ok (record { api = "POST /api/account/admin/ping"; cases = ping_case ∷ [] });
  unmarshal_object = λ body. ok [];
  to_upper = λ s. s;
  canonical_header = λ s. s;
  new_request = λ method target. some (record { headers = []; query = [] });
  recorded = λ response. (pos 200, "pong");
  panic_text = "panic";
  sprint = λ value. "value";
  quote = λ s. s;
  range_headers = λ headers o. (headers, o);
  range_fields = λ fields o. (fields, o);
  range_routes = λ routes o. (routes, o);
}

pub harness-RangesRoutes : RangesRoutes harness
harness-RangesRoutes table o route member = member

abbrev pub decoders : Decoders
decoders = record {
  credentials = λ body. record { body = record { account = ""; password = "" }; err = none };
  permission =
      λ body. record { body = record { session_token = ""; permission_code = "" }; err = none };
  create = λ body. record {
    body = record {
      operator_session_token = "";
      account = "";
      password = "";
      status = "";
      role_ids = [];
    };
    err = none;
  };
  update = λ body. record {
    body = record { operator_session_token = ""; account_id = ""; status = ""; role_ids = [] };
    err = none;
  };
  reset = λ body. record {
    body = record { operator_session_token = ""; account_id = ""; new_password = "" };
    err = none;
  };
  delete =
      λ body. record { body = record { operator_session_token = ""; account_id = "" }; err = none };
  method = λ body. record { body = record { method = ""; args = none }; err = none };
  task = λ body. record { body = record { task_name = "" }; err = none };
}

-- The endpoint of a self-test within a self-test.
abbrev pub refusing : Handler env
refusing r body w = (write_json 1 null "busy", w)

abbrev pub table : Dict (Handler env)
table = routes env decoders "1.0" refusing
