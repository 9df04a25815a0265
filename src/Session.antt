-- ===== src/Session.antt =====
-- account_session_storage.go, and the look-ups of the current account of account_handlers.go
-- (`currentAccountByToken` to `currentProjectAdminAccountByToken`).
pub mod Frame
pub mod RoundTrip
use omps_admin_plugin_accoun.Prelude.{
  String, ◌<>◌, Bool, true, false, Option, none, some, [], ◌∷◌, ◌==◌, if◌then◌else◌,
}
use omps_admin_plugin_accoun.Prelude.Int.{ℤ, ◌+ℤ◌}
use omps_admin_plugin_accoun.Prelude.Text.{trim_space, trim_prefix}
use omps_admin_plugin_accoun.Prelude.Dict.{Dict, get_or}
use omps_admin_plugin_accoun.Prelude.Exec.{Exec, pure, ◌>>=◌, on_none, on_some}
use omps_admin_plugin_accoun.Account.{
  zero_account, failure, is_no_valid_account_role, Result, ok, fail, Found, SessionAccountState,
  missing, account_missing, account_invalid_role, account_ok, Current, on_error,
}
use omps_admin_plugin_accoun.Platform.{Request, Redis, Env, World, call}
use omps_admin_plugin_accoun.Tokens.{new_token}
use omps_admin_plugin_accoun.Storage.Lookup.{get_account_by_id}

abbrev pub session_redis_key : String → String
session_redis_key token = "admin_accounts:session:" <> token

abbrev pub nobody : SessionAccountState → Current
nobody state = record { acc = zero_account; roles = []; state = state }

-- How a look-up by id ends a look-up by session.
abbrev pub session_state : Found → Result Current
session_state f =
    on_some f.err
      (λ e.
        if is_no_valid_account_role e
        then ok (record { acc = f.acc; roles = f.roles; state = account_invalid_role })
        else fail e)
      (if f.exists
        then ok (record { acc = f.acc; roles = f.roles; state = account_ok })
        else ok (nobody account_missing))

-- An error is taken for a missing session.
abbrev pub or_missing : Result Current → Current
or_missing (ok c) = c
or_missing (fail e) = nobody missing

-- The header look-up takes every error for a missing session, that of a lost role too.
abbrev pub header_state : Found → Current
header_state f =
    on_some f.err (λ e. nobody missing)
      (if f.exists
        then record { acc = f.acc; roles = f.roles; state = account_ok }
        else nobody account_missing)

abbrev pub or_else_missing : Current → Bool
or_else_missing c = elim c.state [ missing ↦ true | _ ↦ false ]

module _ (env : Env) where
  abbrev pub session_fields : String → ℤ → ℤ → Dict String
  session_fields account_id expires_at created_at =
      ("account_id", account_id)
      ∷ ("expires_at", env.format_time expires_at)
      ∷ ("created_at", env.format_time created_at)
      ∷ []

  -- The two commands, the second only if the first succeeds.
  unfoldable pub store_session :
      Redis env.Outside → String → String → ℤ → ℤ → Exec (World env) (Result (String × ℤ))
  store_session rdb token account_id expires_at created_at = do
    let key = session_redis_key token
    stored ← call (rdb.hset key (session_fields account_id expires_at created_at))
    on_some stored (λ e. pure (fail e))
        (do
          limited ← call (rdb.expire key env.session_ttl)
          (on_some limited (λ e. pure (fail e)) (pure (ok (token, expires_at)))))

  unfoldable pub create_session : String → Exec (World env) (Result (String × ℤ))
  create_session account_id = do
    token ← new_token env
    now ← call env.now
    let expires_at = now +ℤ env.session_ttl
    on_none env.rdb (pure (fail (failure "redis unavailable"))) λ rdb. do
      created_at ← call env.now
      store_session rdb token account_id expires_at created_at

  -- `getAccountBySession`, which no handler calls.
  unfoldable pub get_account_by_session : String → Exec (World env) Found
  get_account_by_session token =
      on_none env.rdb (pure (record { acc = zero_account; roles = []; exists = false; err = none }))
        λ rdb. do
          read ← call (rdb.hget (session_redis_key token) "account_id")
          on_error read
              (λ e. pure (record { acc = zero_account; roles = []; exists = false; err = some e }))
              λ found_row.
                on_none found_row
                  (pure (record { acc = zero_account; roles = []; exists = false; err = none }))
                  λ account_id. get_account_by_id env account_id

  unfoldable pub get_account_by_session_state : String → Exec (World env) (Result Current)
  get_account_by_session_state token = on_none env.rdb (pure (ok (nobody missing))) λ rdb. do
    read ← call (rdb.hget (session_redis_key token) "account_id")
    on_error read (λ e. pure (fail e))
        λ found_row.
          on_none found_row (pure (ok (nobody missing)))
            λ account_id. do f ← get_account_by_id env account_id; pure (session_state f)

  -- The account id of a session of the project's administration: `none` is a missing session.
  unfoldable pub project_admin_account_id : String → Exec (World env) (Result (Option String))
  project_admin_account_id token =
      on_some env.lookup_project_admin_session
        (λ look_up. do
          id ← call (look_up token)
          (on_error id (λ e. pure (fail e)) λ text. pure (ok (some (trim_space text)))))
        ((on_none env.db (pure (ok none)) λ db. call (db.select_admin_session token)))

  unfoldable pub get_account_by_project_admin_session_state :
      String → Exec (World env) (Result Current)
  get_account_by_project_admin_session_state raw =
      let token = trim_space raw in
      if token == "" then pure (ok (nobody missing)) else do
        found ← project_admin_account_id token
        on_error found (λ e. pure (fail e))
            λ found_row. on_none found_row (pure (ok (nobody missing))) λ account_id.
              if account_id == ""
              then pure (ok (nobody account_missing))
              else do f ← get_account_by_id env account_id; pure (session_state f)

  unfoldable pub current_account_by_token : String → Exec (World env) Current
  current_account_by_token raw =
      let token = trim_space raw in
      if token == ""
      then pure (nobody missing)
      else do r ← get_account_by_session_state token; pure (or_missing r)

  unfoldable pub current_project_admin_account_by_token : String → Exec (World env) Current
  current_project_admin_account_by_token token = do
    r ← get_account_by_project_admin_session_state token
    pure (or_missing r)

  unfoldable pub current_account_by_any_session_token : String → Exec (World env) Current
  current_account_by_any_session_token token = do
    c ← current_account_by_token token
    if or_else_missing c then current_project_admin_account_by_token token else pure c

  -- The first token that a header gives; empty if none does.
  unfoldable pub header_token : Request → String
  header_token r =
      let session = trim_space (get_or "" "X-Admin-Session-Token" r.headers) in
      let admin = trim_space (get_or "" "X-Admin-Token" r.headers) in
      let bearer = trim_space (trim_prefix (get_or "" "Authorization" r.headers) "Bearer ") in
      if session == "" then if admin == "" then bearer else admin else session

  unfoldable pub current_project_admin_account : Request → Exec (World env) Current
  current_project_admin_account r =
      let account_id = trim_space (get_or "" "X-Account-ID" r.headers) in
      if account_id == ""
      then if header_token r == ""
        then pure (nobody missing)
        else current_project_admin_account_by_token (header_token r)
      else do f ← get_account_by_id env account_id; pure (header_state f)
