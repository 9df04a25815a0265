-- ===== src/Temporary/Issued.antt =====
-- What `createTemporaryAdmin` hands out is what it wrote.
use omps_admin_plugin_accoun.Prelude.{String, ◌≡◌, refl, ap, none, some}
use omps_admin_plugin_accoun.Prelude.Int.{ℤ, pos, ◌+ℤ◌}
use omps_admin_plugin_accoun.Account.{Error, Result, ok, fail}
use omps_admin_plugin_accoun.Platform.{Database, Env, World, call}
use omps_admin_plugin_accoun.Platform.Ends.{
  Ends, Ends-pure, Ends-bind, Ends-on_none, Ends-on_some, Ends-on_error,
}
use omps_admin_plugin_accoun.Storage.Changes.{hash_password}
use omps_admin_plugin_accoun.Temporary.{
  temporary_super_admin_seed_id, temporary_admin_ttl, TemporaryAdminCredential,
  write_temporary_admin, create_temporary_admin,
}

module _ (env : Env) where
  -- The row of the seed account was written with the credential's account, the hash of its password
  -- and its end, which is 600 seconds, in nanoseconds, after what the clock said just before.
  pub record IsWritten (c : TemporaryAdminCredential) (after : World env) : Type 0 where
    pub db : Database env.Outside env.Tx
    pub present : env.db ≡ some db
    pub clock : env.Outside
    pub now : ℤ
    pub before : env.Outside
    pub read : env.now clock ≡ (now, before)
    pub written :
        db.upsert_temporary c.account
          (hash_password env c.password)
          (now +ℤ pos 600000000000)
          temporary_super_admin_seed_id
          before
        ≡ (none, after.outside)
    pub expires : c.expires_at ≡ env.format_time (now +ℤ pos 600000000000)
    pub lasts : c.ttl_seconds ≡ 600

  pub data TemporaryOutcome : Result TemporaryAdminCredential → World env → Type 0 where
    refused : {e : Error} {after : World env} → TemporaryOutcome (fail e) after
    issued :
        {c : TemporaryAdminCredential} {after : World env}
        → IsWritten c after
        → TemporaryOutcome (ok c) after

  write_temporary_admin-Outcome :
      (db : Database env.Outside env.Tx) (account password : String) (w : World env)
      → env.db ≡ some db
      → Ends TemporaryOutcome (write_temporary_admin env db account password) w
  unfolding write_temporary_admin call
  write_temporary_admin-Outcome db account password w present =
      let (now, before) = env.now w.outside in
      let after =
        (db.upsert_temporary account (hash_password env password) (now +ℤ pos temporary_admin_ttl)
          temporary_super_admin_seed_id before).1 in
      Ends-bind (call env.now) _ (
        Ends-bind _ _ (
          Ends-on_some _ _ _ (λ e _. Ends-pure _ refused)
            λ h. Ends-pure _ (
              issued (record {
                db = db;
                present = present;
                clock = w.outside;
                now = now;
                before = before;
                read = refl;
                written = ap (λ e. (e, after)) h;
                expires = refl;
                lasts = refl;
              }))))

  -- createTemporaryAdmin ends in an error, or hands out a credential of 600 seconds whose account,
  -- password hash and end, which is ten minutes after a reading of the clock, were written to the
  -- seed account's row by the statement right after that reading, which was the last and
  -- succeeded.
  pub create_temporary_admin-Outcome :
      (w : World env)
      → TemporaryOutcome (create_temporary_admin env w).0 (create_temporary_admin env w).1
  unfolding create_temporary_admin
  create_temporary_admin-Outcome w =
      let go : Ends TemporaryOutcome (create_temporary_admin env) w =
        (Ends-on_none env.db _ _ (λ _. Ends-pure _ refused)
          λ db present. Ends-bind _ _ (
            Ends-on_error _ _ _ (λ e _. Ends-pure _ refused)
              λ account _. Ends-bind _ _ (
                Ends-on_error _ _ _ (λ e _. Ends-pure _ refused)
                  λ password _. write_temporary_admin-Outcome db account password _ present))) in
      go.at
