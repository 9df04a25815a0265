-- ===== src/Config.antt =====
-- main.go: what `Init` reads of the configuration, and the plugin that it leaves; `initStorage` and
-- `ensureMemoryStore` of account_storage.go.
pub mod Ttl
use omps_admin_plugin_accoun.Prelude.{
  ℕ, zero, suc, String, ◌<>◌, Bool, Option, none, some, [], ◌==◌, if◌then◌else◌,
}
use omps_admin_plugin_accoun.Prelude.Int.{ℤ, pos, ltb_ℤ, ◌*ℤ◌, wrap_64}
use omps_admin_plugin_accoun.Prelude.Text.{atoi}
use omps_admin_plugin_accoun.Prelude.Dict.{Dict, get_or}
use omps_admin_plugin_accoun.Prelude.Exec.{Exec, pure, ◌>>=◌, on_none, on_some}
use omps_admin_plugin_accoun.Account.{Error, Result}
use omps_admin_plugin_accoun.Platform.{Database, Redis, InternalRequest, Env, World, call}

-- Seconds that are no positive number stand for eight hours.
abbrev pub seconds_or_default : Option ℤ → ℤ
seconds_or_default none = pos 28800
seconds_or_default (some seconds) = if ltb_ℤ (pos 0) seconds then seconds else pos 28800

-- `raw` of `readSessionTTL`.
abbrev pub raw_ttl : Dict String → String
raw_ttl config =
    let set = get_or "" "ACCOUNT_SESSION_TTL_SECONDS" config in if set == "" then "28800" else set

-- `readSessionTTL`; a duration is a number of nanoseconds of 64 bits.
unfoldable pub read_session_ttl : Dict String → ℤ
read_session_ttl config = wrap_64 (seconds_or_default (atoi (raw_ttl config)) *ℤ pos 1000000000)

-- `redis.Options`, as far as they are set.
pub record RedisOptions : Type 0 where
  pub addr : String
  pub password : String
  pub db : ℤ

-- A database number that is no natural number stands for 0.
abbrev pub redis_db : String → ℤ
redis_db raw =
    if raw == ""
    then pos 0
    else on_none (atoi raw) (pos 0) λ n. if ltb_ℤ n (pos 0) then pos 0 else n

abbrev pub redis_host : Dict String → String
redis_host config =
    let lan = get_or "" "REDIS_HOST_LAN" config in
    if lan == "" then get_or "" "REDIS_HOST_WG" config else lan

abbrev pub redis_port : Dict String → String
redis_port config = let port = get_or "" "REDIS_PORT" config in if port == "" then "6379" else port

-- The options that `newRedisClient` hands to `redis.NewClient`, or nil; `none` is a nil map.
unfoldable pub redis_options : Option (Dict String) → Option RedisOptions
redis_options none = none
redis_options (some config) =
    let host = redis_host config in
    if host == ""
    then none
    else some (record {
      addr = host <> ":" <> redis_port config;
      password = get_or "" "REDIS_PASSWORD" config;
      db = redis_db (get_or "" "REDIS_DB" config);
    })

-- `PluginContext`, as far as `Init` keeps it; `new_client` is `redis.NewClient`.
pub record Context (S Tx : Type 0) : Type 0 where
  pub db : Option (Database S Tx)
  pub config : Option (Dict String)
  pub internal_request : Option (InternalRequest S)
  pub push : Option (String → String → Dict String → Exec S (Result ℤ))
  pub emit : Option (String → String → Dict String → Exec S Bool)
  pub new_client : RedisOptions → Redis S

abbrev pub config_of : Option (Dict String) → Dict String
config_of none = []
config_of (some config) = config

-- The fields that `Init` sets.
unfoldable pub configured : (env : Env) → Context env.Outside env.Tx → Env
configured env ctx = record env {
  db = ctx.db;
  rdb = on_none (redis_options ctx.config) none λ options. some (ctx.new_client options);
  internal_request = ctx.internal_request;
  push = ctx.push;
  emit = ctx.emit;
  session_ttl = read_session_ttl (config_of ctx.config);
  admin_api_key = get_or "" "ADMIN_API_KEY" (config_of ctx.config);
}

-- The loop of `initStorage` from statement `i` on, with `left` statements to go; it stops at the first
-- that fails.
unfoldable pub exec_statements : {S Tx : Type 0} → Database S Tx → ℕ → ℕ → Exec S (Option Error)
exec_statements db zero i = pure none
exec_statements db (suc left) i = do
  failed ← db.exec_schema i
  on_some failed (λ e. pure (some e)) (exec_statements db left (suc i))

-- The statements of the schema.
abbrev pub schema_length : ℕ
schema_length = 19

-- `initStorage`. The maps of the model are never nil, so `ensureMemoryStore` changes nothing.
unfoldable pub init_storage : (env : Env) → Exec (World env) (Option Error)
init_storage env = on_none env.db (pure none) λ db. call (exec_statements db schema_length 0)

-- `Init`, as far as it ends: the error of `initStorage`. The worker that it starts is in Temporary.
unfoldable pub init :
    (env : Env) (ctx : Context env.Outside env.Tx)
    → Exec (World (configured env ctx)) (Option Error)
init env ctx = init_storage (configured env ctx)
