-- ===== src/Storage/Transactions/Finished.antt =====
-- How a transaction that was begun ends: the steps that the changes of accounts share.
use omps_admin_plugin_accoun.Prelude.{
  String, ◌≡◌, refl, sym, ap, subst, ◌∙◌, Option, none, some, List, [], ◌∷◌,
}
use omps_admin_plugin_accoun.Account.{AccountRecord, Error, Result, ok, fail}
use omps_admin_plugin_accoun.Platform.{Database, Env, World, call}
use omps_admin_plugin_accoun.Platform.Ends.{Ends, Ends-pure, Ends-bind, Ends-on_some}
use omps_admin_plugin_accoun.Storage.Roles.{
  then_tx, insert_bindings, committed, replace_account_roles_tx,
}
use omps_admin_plugin_accoun.Storage.Changes.{finish_with_roles}
use omps_admin_plugin_accoun.Storage.Transactions.{
  Script, abort, finish, Transaction, rolled_back, done, not_committed, bind_all, rebind,
}

abbrev script_of : {A : Type 0} → A → Option Error → Script A
script_of a none = finish a
script_of a (some e) = abort (fail e)

module _ (env : Env) (db : Database env.Outside env.Tx) where
  bind_all-insert_bindings :
      (id : String) (roles : List String) (tx : env.Tx)
      → bind_all db id roles tx ≡ insert_bindings env db id roles tx
  unfolding insert_bindings
  bind_all-insert_bindings id [] tx = refl
  bind_all-insert_bindings id (role ∷ roles) tx =
      go (db.tx_insert_binding id role tx).0 (db.tx_insert_binding id role tx).1
        (bind_all-insert_bindings id roles)
    where
      go :
          (e : Option Error) (tx' : env.Tx)
          → ((tx : env.Tx) → bind_all db id roles tx ≡ insert_bindings env db id roles tx)
          → (elim e as (λ _. Option Error × env.Tx) [
            | none ↦ bind_all db id roles tx'
            | some e ↦ (some e, tx')
          ])
            ≡ then_tx e (insert_bindings env db id roles) tx'
      go none tx' later = later tx'
      go (some e) tx' later = refl

  rebind-replace_account_roles_tx :
      {A : Type 0} (a : A) (id : String) (roles : List String) (tx : env.Tx)
      → rebind db a id roles tx ≡ (
        script_of a (replace_account_roles_tx env db id roles tx).0,
        (replace_account_roles_tx env db id roles tx).1,
      )
  unfolding replace_account_roles_tx
  rebind-replace_account_roles_tx {A} a id roles tx =
      go (db.tx_delete_bindings id tx).0 (db.tx_delete_bindings id tx).1
    where
      ended :
          (o : Option Error)
          → elim o as (λ _. Script A) [ none ↦ finish a | some e ↦ abort (fail e) ] ≡ script_of a o
      ended none = refl
      ended (some e) = refl

      go :
          (e : Option Error) (tx' : env.Tx)
          → (elim e as (λ _. Script A × env.Tx) [
            | none ↦ (
              elim (bind_all db id roles tx').0 as (λ _. Script A) [
                | none ↦ finish a
                | some e ↦ abort (fail e)
              ],
              (bind_all db id roles tx').1,
            )
            | some e ↦ (abort (fail e), tx')
          ])
            ≡ (
              script_of a (then_tx e (insert_bindings env db id roles) tx').0,
              (then_tx e (insert_bindings env db id roles) tx').1,
            )
      go none tx' =
          ap (λ s. (s, (bind_all db id roles tx').1)) (ended (bind_all db id roles tx').0)
          ∙ ap (λ p. (script_of a p.0, p.1)) (bind_all-insert_bindings id roles tx')
      go (some e) tx' = refl

  -- One transaction of the script from the state before, and the plugin's maps as they were.
  abbrev pub Refines :
      {A : Type 0} → (env.Tx → Script A × env.Tx) → World env → Result A → World env → Type 0
  Refines script w answer after =
      Transaction db script w.outside answer after.outside × (after.maps ≡ w.maps)

  -- The end of a transaction that `script` describes, once it was begun in the state `w`.
  module _ {A : Type 0} (script : env.Tx → Script A × env.Tx) (w : World env) (tx : env.Tx)
      (begun : (db.begin_tx w.outside).0 ≡ ok tx) where
    abbrev Ended : Result A → World env → Type 0
    Ended = Refines script w

    abbrev opened : World env
    opened = record w { outside = (db.begin_tx w.outside).1 }

    pub commit-Ended :
        (a : A) (tx' : env.Tx)
        → script tx ≡ (finish a, tx')
        → Ended
            (committed a (db.commit tx' opened.outside).0)
            (record w { outside = (db.commit tx' opened.outside).1 })
    commit-Ended a tx' scripted =
        subst
          (λ tx'.
            Ended (committed a (db.commit tx' opened.outside).0)
              (record w { outside = (db.commit tx' opened.outside).1 }))
          (ap (λ p. p.1) scripted) (go (db.commit (script tx).1 opened.outside).0 refl, refl)
      where
        go :
            (o : Option Error)
            → (db.commit (script tx).1 opened.outside).0 ≡ o
            → Transaction db script w.outside
                (committed a o)
                (db.commit (script tx).1 opened.outside).1
        go none quiet = done tx begun (ap (λ p. p.0) scripted) quiet
        go (some e) failed = not_committed tx begun (ap (λ p. p.0) scripted) failed

    pub finish_with_roles-Ended :
        (f : Result AccountRecord → Result A) (acc : AccountRecord) (a : A) (roles : List String)
        (tx' : env.Tx)
        → script tx ≡ rebind db a acc.id roles tx'
        → ((o : Option Error) → f (committed acc o) ≡ committed a o)
        → ((e : Error) → f (fail e) ≡ fail e)
        → Ends (λ r after. Ended (f r) after) (finish_with_roles env db acc roles tx') opened
    unfolding finish_with_roles call
    finish_with_roles-Ended f acc a roles tx' scripted of_commit of_fail =
        let bound = replace_account_roles_tx env db acc.id roles tx' in
        let same = scripted ∙ rebind-replace_account_roles_tx a acc.id roles tx' in
        Ends-on_some bound.0 _ _
          (λ e h. Ends-pure _ (
            subst (λ r. Ended r opened) (sym (of_fail e))
              (rolled_back tx begun (ap (λ p. p.0) same ∙ ap (script_of a) h), refl)))
          (λ h. Ends-bind (call (db.commit bound.1)) _ (
            Ends-pure _ (
              subst (λ r. Ended r (record w { outside = (db.commit bound.1 opened.outside).1 }))
                (sym (of_commit (db.commit bound.1 opened.outside).0))
                (commit-Ended a bound.1 (same ∙ ap (λ o. (script_of a o, bound.1)) h)))))
