-- ===== src/Storage/Transactions.antt =====
-- What the transactions of account_storage.go and account_delete_storage.go are to do: the statements of
-- each in order, and a commit of them all or none.
pub mod Refined
pub mod Finished
use mathlib.Core.Option.{none-ne-some, some-injective}
use omps_admin_plugin_accoun.Prelude.{
  String, ◌≡◌, refl, ℕ, sym, ap, subst, ◌∙◌, Bool, true, false, Option, none, some, List, [], ◌∷◌,
  eqb, if◌then◌else◌,
}
use omps_admin_plugin_accoun.Prelude.Text.{trim_space}
use omps_admin_plugin_accoun.Prelude.Exec.{Exec, pure, ◌>>=◌, on_none, on_some}
use omps_admin_plugin_accoun.Account.{AccountRecord, Error, Result, ok, fail, on_error}
use omps_admin_plugin_accoun.Platform.{Database, Env, World, call}
use omps_admin_plugin_accoun.Platform.Ends.{
  Ends, Ends-pure, Ends-bind, Ends-if, Ends-on_none, Ends-on_some, Ends-on_error,
}
use omps_admin_plugin_accoun.Storage.Roles.{
  then_tx, insert_bindings, committed, replace_account_roles_tx,
}
use omps_admin_plugin_accoun.Storage.Changes.{
  finish_with_roles, create_account_db, create_account, update_account, as_updated,
  delete_account_db, delete_account, hash_password,
}

-- What the statements of a transaction come to: an answer for which nothing is to be committed, or one
-- that holds once they are.
pub data Script (A : Type 0) : Type 0 where
  abort : Result A → Script A
  finish : A → Script A

-- The specification of a transaction: of the state before to the answer and the state after.
pub data Transaction {S Tx A : Type 0} (db : Database S Tx) (script : Tx → Script A × Tx)
    (before : S) : Result A → S → Type 0 where
  not_begun :
      {e : Error}
      → (db.begin_tx before).0 ≡ fail e
      → Transaction db script before (fail e) (db.begin_tx before).1
  rolled_back :
      {answer : Result A} (tx : Tx)
      → (db.begin_tx before).0 ≡ ok tx
      → (script tx).0 ≡ abort answer
      → Transaction db script before answer (db.begin_tx before).1
  done :
      {a : A} (tx : Tx)
      → (db.begin_tx before).0 ≡ ok tx
      → (script tx).0 ≡ finish a
      → (db.commit (script tx).1 (db.begin_tx before).1).0 ≡ none
      → Transaction db script before (ok a) (db.commit (script tx).1 (db.begin_tx before).1).1
  not_committed :
      {a : A} {e : Error} (tx : Tx)
      → (db.begin_tx before).0 ≡ ok tx
      → (script tx).0 ≡ finish a
      → (db.commit (script tx).1 (db.begin_tx before).1).0 ≡ some e
      → Transaction db script before (fail e) (db.commit (script tx).1 (db.begin_tx before).1).1

module _ {S Tx : Type 0} (db : Database S Tx) where
  -- One binding after the other, up to the first that fails.
  abbrev pub bind_all : String → List String → Exec Tx (Option Error)
  bind_all id [] tx = (none, tx)
  bind_all id (role ∷ roles) tx =
      let (e, tx') = db.tx_insert_binding id role tx in
      elim e as (λ _. Option Error × Tx) [ none ↦ bind_all id roles tx' | some e ↦ (some e, tx') ]

  -- The bindings of an account give way to those asked for; then the answer holds.
  abbrev pub rebind : {A : Type 0} → A → String → List String → Tx → Script A × Tx
  rebind {A} a id roles tx =
      let (e, tx') = db.tx_delete_bindings id tx in
      elim e as (λ _. Script A × Tx) [
        | none ↦
            let (e, tx'') = bind_all id roles tx' in
            (elim e as (λ _. Script A) [ none ↦ finish a | some e ↦ abort (fail e) ], tx'')
        | some e ↦ (abort (fail e), tx')
      ]

  abbrev pub create_rest : List String → Result AccountRecord → Tx → Script AccountRecord × Tx
  create_rest roles (ok acc) tx = rebind acc acc.id roles tx
  create_rest roles (fail e) tx = (abort (fail e), tx)

  abbrev pub create_script : String → String → String → List String → Tx → Script AccountRecord × Tx
  create_script account password_hash status roles tx =
      let (row, tx') = db.tx_insert_account account password_hash status tx in
      create_rest roles row tx'

  -- No row is no account.
  abbrev pub update_rest :
      List String → Result (Option AccountRecord) → Tx → Script (Option AccountRecord) × Tx
  update_rest roles (ok none) tx = (abort (ok none), tx)
  update_rest roles (ok (some acc)) tx = rebind (some acc) acc.id roles tx
  update_rest roles (fail e) tx = (abort (fail e), tx)

  abbrev pub update_script : String → String → List String → Tx → Script (Option AccountRecord) × Tx
  update_script id status roles tx =
      let (row, tx') = db.tx_update_status id status tx in update_rest roles row tx'

  abbrev pub delete_rest : Result ℕ → Script Bool
  delete_rest (ok rows) = if eqb rows 0 then abort (ok false) else finish true
  delete_rest (fail e) = abort (fail e)

  abbrev pub delete_bound : String → Option Error → Tx → Script Bool × Tx
  delete_bound id none tx =
      let (affected, tx') = db.tx_delete_account id tx in (delete_rest affected, tx')
  delete_bound id (some e) tx = (abort (fail e), tx)

  abbrev pub delete_script : String → Tx → Script Bool × Tx
  delete_script id tx = let (e, tx') = db.tx_delete_bindings id tx in delete_bound id e tx'
