-- ===== src/Storage/Transactions/Refined.antt =====
-- `createAccount`, `updateAccount` and `deleteAccount` with a database, against their transactions.
use omps_admin_plugin_accoun.Prelude.{
  String, ◌≡◌, refl, sym, ap, subst, ◌∙◌, true, false, Option, none, some, List, eqb, if◌then◌else◌,
}
use omps_admin_plugin_accoun.Prelude.Text.{trim_space}
use omps_admin_plugin_accoun.Prelude.Exec.{on_some}
use omps_admin_plugin_accoun.Account.{AccountRecord, Error, ok}
use omps_admin_plugin_accoun.Platform.{Database, Env, World, call}
use omps_admin_plugin_accoun.Platform.Ends.{
  Ends, Ends-pure, Ends-bind, Ends-if, Ends-on_none, Ends-on_some, Ends-on_error,
}
use omps_admin_plugin_accoun.Storage.Roles.{committed}
use omps_admin_plugin_accoun.Storage.Changes.{
  finish_with_roles, create_account_db, create_account, update_account, as_updated,
  delete_account_db, delete_account, hash_password,
}
use omps_admin_plugin_accoun.Storage.Transactions.{
  abort, finish, not_begun, rolled_back, create_rest, create_script, update_rest, update_script,
  delete_rest, delete_bound, delete_script,
}
use omps_admin_plugin_accoun.Storage.Transactions.Finished.{
  Refines, commit-Ended, finish_with_roles-Ended,
}

module _ (env : Env) (db : Database env.Outside env.Tx) where
  create_account_db-Refines :
      (account password_hash status : String) (roles : List String) (w : World env)
      → Ends
          (Refines env db (create_script db account password_hash status roles) w)
          (create_account_db env db account password_hash status roles)
          w
  unfolding create_account_db call
  create_account_db-Refines account password_hash status roles w =
      let script = create_script db account password_hash status roles in
      Ends-bind (call db.begin_tx) _ (
        Ends-on_error (db.begin_tx w.outside).0 _ _
          (λ e failed. Ends-pure _ (not_begun failed, refl))
          λ tx begun.
            let row = db.tx_insert_account account password_hash status tx in
            Ends-on_error row.0 _ _
              (λ e failed.
                Ends-pure _
                  (rolled_back tx begun (ap (λ r. (create_rest db roles r row.1).0) failed), refl))
              λ acc found.
                finish_with_roles-Ended env db script w tx begun (λ r. r) acc acc roles row.1
                  (ap (λ r. create_rest db roles r row.1) found) (λ o. refl) (λ e. refl))

  module _ (present : env.db ≡ some db) where
    -- Where the plugin has the database, the branch for one is taken.
    with_database :
        {X : Type 0} (k : Database env.Outside env.Tx → X) (n : X) → on_some env.db k n ≡ k db
    unfolding on_some
    with_database k n = ap (λ o. on_some o k n) present

    as_updated-committed :
        (acc : AccountRecord) (o : Option Error)
        → as_updated env (committed acc o) ≡ committed (some acc) o
    as_updated-committed acc none = refl
    as_updated-committed acc (some e) = refl

    update_account-Refines :
        (id status : String) (roles : List String) (w : World env)
        → Ends
            (Refines env db (update_script db id status roles) w)
            (update_account env id status roles)
            w
    unfolding update_account call
    update_account-Refines id status roles w =
        let script = update_script db id status roles in
        subst (λ m. Ends (Refines env db script w) m w) (sym (with_database _ _))
          (Ends-bind (call db.begin_tx) _ (
            Ends-on_error (db.begin_tx w.outside).0 _ _
              (λ e failed. Ends-pure _ (not_begun failed, refl))
              λ tx begun.
                let row = db.tx_update_status id status tx in
                Ends-on_error row.0 _ _
                  (λ e failed. Ends-pure _ (
                    rolled_back tx begun (ap (λ r. (update_rest db roles r row.1).0) failed),
                    refl,
                  ))
                  λ found_row found.
                    Ends-on_none found_row _ _
                      (λ absent. Ends-pure _ (
                        rolled_back tx begun
                            (ap (λ r. (update_rest db roles r row.1).0) (found ∙ ap ok absent)),
                        refl,
                      ))
                      λ acc here. Ends-bind (finish_with_roles env db acc roles row.1) _ (
                        Ends-pure _
                          (finish_with_roles-Ended env db script w tx begun (as_updated env) acc
                            (some acc) roles row.1
                            (ap (λ r. update_rest db roles r row.1) (found ∙ ap ok here))
                            (as_updated-committed acc) (λ e. refl)).at)))

    delete_account-Refines :
        (id : String) (w : World env)
        → Ends (Refines env db (delete_script db (trim_space id)) w) (delete_account env id) w
    unfolding delete_account delete_account_db call
    delete_account-Refines raw w =
        let id = trim_space raw in
        let script = delete_script db id in
        subst (λ m. Ends (Refines env db script w) m w) (sym (with_database _ _))
          (Ends-bind (call db.begin_tx) _ (
            Ends-on_error (db.begin_tx w.outside).0 _ _
              (λ e failed. Ends-pure _ (not_begun failed, refl))
              λ tx begun.
                let unbound = db.tx_delete_bindings id tx in
                let removed = db.tx_delete_account id unbound.1 in
                Ends-on_some unbound.0 _ _
                  (λ e failed. Ends-pure _ (
                    rolled_back tx begun (ap (λ o. (delete_bound db id o unbound.1).0) failed),
                    refl,
                  ))
                  λ quiet.
                    Ends-on_error removed.0 _ _
                      (λ e failed. Ends-pure _ (
                        rolled_back tx begun (
                            ap (λ o. (delete_bound db id o unbound.1).0) quiet
                            ∙ ap (delete_rest db) failed),
                        refl,
                      ))
                      λ rows counted.
                        Ends-if (eqb rows 0) _ _
                          (λ zero. Ends-pure _ (
                            rolled_back tx begun (
                                ap (λ o. (delete_bound db id o unbound.1).0) quiet
                                ∙ ap (delete_rest db) counted
                                ∙ ap (λ b. if b then abort (ok false) else finish true) zero),
                            refl,
                          ))
                          λ some_rows. Ends-bind (call (db.commit removed.1)) _ (
                            Ends-pure _ (
                              commit-Ended env db script w tx begun true removed.1 (
                                ap (λ o. delete_bound db id o unbound.1) quiet
                                ∙ ap (λ r. (delete_rest db r, removed.1)) counted
                                ∙ ap (λ b. (if b then abort (ok false) else finish true, removed.1))
                                    some_rows)))))

    -- The hash and the time come before the transaction.
    create_account-Refines :
        (account password status : String) (roles : List String) (w : World env)
        → Ends
            (Refines env db
              (create_script db account (hash_password env password) status roles)
              (record w { outside = (env.now w.outside).1 }))
            (create_account env account password status roles)
            w
    unfolding create_account call
    create_account-Refines account password status roles w = Ends-bind (call env.now) _ (
        subst
          (λ m.
            Ends
              (Refines env db (create_script db account (hash_password env password) status roles)
                (record w { outside = (env.now w.outside).1 }))
              m (call env.now w).1)
          (sym (with_database _ _))
          (create_account_db-Refines account (hash_password env password) status roles _))

    -- With a database, createAccount, updateAccount and deleteAccount are one transaction each:
    -- its statements run in the order written, up to the first that fails or finds no row; if all
    -- succeed and the commit does, the answer is theirs and what stands outside is the committed
    -- state; if one fails, nothing is committed, and if the commit fails its error is the answer.
    -- The plugin's maps stay as they were.
    pub changes-Refines :
        (account password status id : String) (roles : List String) (w : World env)
        → Refines env db
            (create_script db account (hash_password env password) status roles)
            (record w { outside = (env.now w.outside).1 })
            (create_account env account password status roles w).0
            (create_account env account password status roles w).1
          × Refines env db
              (update_script db id status roles)
              w
              (update_account env id status roles w).0
              (update_account env id status roles w).1
          × Refines env db
              (delete_script db (trim_space id))
              w
              (delete_account env id w).0
              (delete_account env id w).1
    changes-Refines account password status id roles w = (
      (create_account-Refines account password status roles w).at,
      (update_account-Refines id status roles w).at,
      (delete_account-Refines id w).at,
    )
