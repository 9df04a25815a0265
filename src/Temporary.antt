-- ===== src/Temporary.antt =====
-- account_temporary_admin.go: the temporary super administrator, and its worker.
pub mod Issued
use omps_admin_plugin_accoun.Prelude.{ℕ, ◌*◌, String, ◌<>◌, Option, none, List, [], ◌∷◌}
use omps_admin_plugin_accoun.Prelude.Int.{pos, ◌+ℤ◌}
use omps_admin_plugin_accoun.Prelude.Exec.{Exec, pure, ◌>>=◌, on_none, on_some}
use omps_admin_plugin_accoun.Account.{Error, failure, message, Result, ok, fail, on_error}
use omps_admin_plugin_accoun.Platform.{Database, Env, World, call}
use omps_admin_plugin_accoun.Tokens.{random_hex}
use omps_admin_plugin_accoun.Storage.Changes.{hash_password}

abbrev pub temporary_super_admin_seed_id : String
temporary_super_admin_seed_id = "00000000-0000-0000-0000-0000000000fe"

-- Ten minutes, in nanoseconds.
abbrev pub temporary_admin_ttl : ℕ
temporary_admin_ttl = 10 * 60 * 1000000000

pub record TemporaryAdminCredential : Type 0 where
  pub account : String
  pub password : String
  pub expires_at : String
  pub ttl_seconds : ℕ

-- What the worker's loop selects: the end of its context, or a tick.
pub data WorkerEvent : Type 0 where
  cancelled tick : WorkerEvent

module _ (env : Env) where
  -- The end of `createTemporaryAdmin`: the seed row is written, then the credential is returned.
  unfoldable pub write_temporary_admin :
      Database env.Outside env.Tx
      → String
      → String
      → Exec (World env) (Result TemporaryAdminCredential)
  write_temporary_admin db new_account plain_password = do
    now ← call env.now
    let expires_at = now +ℤ pos temporary_admin_ttl
    written ← call (
        db.upsert_temporary new_account (hash_password env plain_password) expires_at
          temporary_super_admin_seed_id)
    on_some written (λ e. pure (fail (failure ("更新临时超管账号失败: " <> message e))))
        (pure (
          ok (record {
            account = new_account;
            password = plain_password;
            expires_at = env.format_time expires_at;
            ttl_seconds = 600;
          })))

  unfoldable pub create_temporary_admin : Exec (World env) (Result TemporaryAdminCredential)
  create_temporary_admin = on_none env.db (pure (fail (failure "数据库未就绪"))) λ db. do
    account ← random_hex env 4
    on_error account (λ e. pure (fail (failure ("生成账号失败: " <> message e))))
        λ new_account. do
          password ← random_hex env 8
          on_error password (λ e. pure (fail (failure ("生成密码失败: " <> message e))))
              λ plain_password. write_temporary_admin db new_account plain_password

  -- One tick of `startTemporaryAdminWorker`: the error that is logged, if any.
  unfoldable pub worker_tick : Exec (World env) (Option Error)
  worker_tick = on_none env.db (pure none) λ db. call db.disable_expired_temporary

  -- `startTemporaryAdminWorker` over the events that come, with the errors that it logs. `Init` has
  -- set the logger.
  unfoldable pub start_temporary_admin_worker : List WorkerEvent → Exec (World env) (List Error)
  start_temporary_admin_worker [] = pure []
  start_temporary_admin_worker (cancelled ∷ events) = pure []
  start_temporary_admin_worker (tick ∷ events) = do
    failed ← worker_tick
    logged ← start_temporary_admin_worker events
    pure (on_none failed logged λ e. e ∷ logged)
