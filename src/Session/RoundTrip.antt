-- ===== src/Session/RoundTrip.antt =====
-- A session that `createSession` stores is the one that `currentAccountByToken` reads back.
use mathlib.Core.Option.{none-ne-some, some-injective}
use omps_admin_plugin_accoun.Prelude.{
  String, ◌≡◌, refl, sym, ap, subst, ◌∙◌, true, false, Option, none, some, ◌==◌,
}
use omps_admin_plugin_accoun.Prelude.Int.{ℤ, ◌+ℤ◌, pos, ltb_ℤ}
use omps_admin_plugin_accoun.Prelude.Text.{trim_space}
use omps_admin_plugin_accoun.Prelude.Dict.{Dict, lookup}
use omps_admin_plugin_accoun.Prelude.Exec.{pure, ◌>>=◌, on_none}
use omps_admin_plugin_accoun.Account.{Result, ok, fail, on_error}
use omps_admin_plugin_accoun.Platform.{Redis, Env, World, call}
use omps_admin_plugin_accoun.Platform.Ends.{Ends, Ends-pure, Ends-bind, Ends-on_none, Ends-on_some}
use omps_admin_plugin_accoun.Tokens.{new_token}
use omps_admin_plugin_accoun.Tokens.Drawn.{trim_space-new_token}
use omps_admin_plugin_accoun.Storage.Lookup.{get_account_by_id}
use omps_admin_plugin_accoun.Session.{
  session_redis_key, session_fields, session_state, or_missing, store_session, create_session,
  get_account_by_session_state, current_account_by_token,
}

-- What the code relies on in Redis: a field that HSET wrote is read back by HGET, and EXPIRE with a
-- positive time leaves what is read at once as it was.
pub record RedisLaws {S : Type 0} (rdb : Redis S) : Type 0 where
  pub hset-hget :
      (key name value : String) (fields : Dict String) (o : S)
      → (rdb.hset key fields o).0 ≡ none
      → lookup name fields ≡ some value
      → (rdb.hget key name (rdb.hset key fields o).1).0 ≡ ok (some value)
  pub expire-hget :
      (key asked name : String) (ttl : ℤ) (o : S)
      → ltb_ℤ (pos 0) ttl ≡ true
      → (rdb.expire key ttl o).0 ≡ none
      → (rdb.hget asked name (rdb.expire key ttl o).1).0 ≡ (rdb.hget asked name o).0

abbrev token_of : Result (String × ℤ) → Option String
token_of (ok session) = some session.0
token_of (fail e) = none

module _ (env : Env) (rdb : Redis env.Outside) where
  -- The session of a token is that of an account.
  abbrev Holds : String → String → World env → Type 0
  Holds token account_id w =
      (rdb.hget (session_redis_key token) "account_id" w.outside).0 ≡ ok (some account_id)

  -- A session that came of an action is in Redis, and its token has no blanks around it.
  abbrev Stored : String → Result (String × ℤ) → World env → Type 0
  Stored account_id r w =
      (token : String)
      → token_of r ≡ some token
      → Holds token account_id w × (trim_space token ≡ token)

  module _ (laws : RedisLaws rdb) (lasting : ltb_ℤ (pos 0) env.session_ttl ≡ true) where
    store_session-Stored :
        (token account_id : String) (expires_at created_at : ℤ) (w : World env)
        → trim_space token ≡ token
        → Ends (Stored account_id) (store_session env rdb token account_id expires_at created_at) w
    unfolding store_session call lookup
    store_session-Stored token account_id expires_at created_at w trimmed =
        let key = session_redis_key token in
        let fields = session_fields env account_id expires_at created_at in
        Ends-bind (call (rdb.hset key fields)) _ (
          Ends-on_some _ _ _ (λ e _. Ends-pure _ λ t absurd. elim (none-ne-some t absurd) [ ])
            λ stored. Ends-bind (call (rdb.expire key env.session_ttl)) _ (
              Ends-on_some _ _ _ (λ e _. Ends-pure _ λ t absurd. elim (none-ne-some t absurd) [ ])
                λ limited. Ends-pure _ λ t same.
                  subst
                    (λ t.
                      Holds t account_id
                        (call (rdb.expire key env.session_ttl) (call (rdb.hset key fields) w).1).1
                      × (trim_space t ≡ t))
                    (some-injective token t same)
                    (
                      laws.expire-hget key key "account_id" env.session_ttl _ lasting limited
                          ∙ laws.hset-hget key "account_id" account_id fields w.outside stored refl,
                      trimmed,
                    )))

    module _ (present : env.rdb ≡ some rdb) where
      create_session-Stored :
          (account_id : String) (w : World env)
          → Ends (Stored account_id) (create_session env account_id) w
      unfolding create_session
      create_session-Stored account_id w =
          let drawn = new_token env w in
          let now = call env.now drawn.1 in
          Ends-bind (new_token env) _ (
            Ends-bind (call env.now) _ (
              Ends-on_none env.rdb _ _
                (λ absent. elim (none-ne-some rdb (sym absent ∙ present)) [ ])
                λ rdb' e.
                  subst
                    (λ rdb'.
                      Ends (Stored account_id)
                        (call env.now >>= λ created_at.
                          store_session env rdb' drawn.0 account_id (now.0 +ℤ env.session_ttl)
                            created_at)
                        now.1)
                    (some-injective rdb rdb' (sym present ∙ e))
                    (Ends-bind (call env.now) _ (
                      store_session-Stored drawn.0 account_id _ _ _ (trim_space-new_token env w)))))

      -- What the look-up by session reads where the session is there.
      state_of-Holds :
          (token account_id : String) (w : World env)
          → Holds token account_id w
          → (get_account_by_session_state env token w).0
            ≡ session_state
                (get_account_by_id env account_id
                  (call (rdb.hget (session_redis_key token) "account_id") w).1).0
      unfolding get_account_by_session_state call on_none on_error ◌>>=◌ pure
      state_of-Holds token account_id w held = rw (present, held) refl

      -- Where Redis reads back what it was given and the life of a session is positive, the token
      -- of a session that createSession stored, if it is not empty, leads currentAccountByToken to
      -- the look-up of that very account by its id.
      pub current_account_by_token-create_session :
          (account_id token : String) (expires_at : ℤ) (w : World env)
          → (create_session env account_id w).0 ≡ ok (token, expires_at)
          → token == "" ≡ false
          → let after = (create_session env account_id w).1 in
            (current_account_by_token env token after).0
            ≡ or_missing (
                session_state
                  (get_account_by_id env account_id
                    (call (rdb.hget (session_redis_key token) "account_id") after).1).0)
      unfolding current_account_by_token ◌>>=◌ pure
      current_account_by_token-create_session account_id token expires_at w created filled =
          let after = (create_session env account_id w).1 in
          let (held, trimmed) =
            (create_session-Stored account_id w).at token (ap token_of created) in
          rw (trimmed, filled) (ap or_missing (state_of-Holds token account_id after held))
