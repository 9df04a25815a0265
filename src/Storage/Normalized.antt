-- ===== src/Storage/Normalized.antt =====
-- What `normalizeAccountRoles` of account_role_storage.go leaves of an account's roles.
use mathlib.Core.List.{Memᴰ}
use omps_admin_plugin_accoun.Prelude.{
  String, ◌≡◌, refl, ap, ◌∙◌, true, false, none, some, List, [], ◌∷◌, map, ◌==◌,
}
use omps_admin_plugin_accoun.Prelude.Text.{trim_space}
use omps_admin_plugin_accoun.Prelude.Dict.{lookup, lookup-insert_same}
use omps_admin_plugin_accoun.Prelude.Exec.{Exec, pure}
use omps_admin_plugin_accoun.Account.{Error, ok}
use omps_admin_plugin_accoun.Platform.{AdminRoleDetail, Database, Env, World, call}
use omps_admin_plugin_accoun.Platform.Ends.{
  Ends, Ends-pure, Ends-bind, Ends-if, Ends-on_none, Ends-on_some, Ends-on_error,
}
use omps_admin_plugin_accoun.RoleClient.{admin_role_detail, normalize_role_status}
use omps_admin_plugin_accoun.Storage.Roles.{
  Normalized, keep_only_account_role, keep_enabled, try_role, first_enabled,
  normalize_account_roles,
}

module _ (env : Env) (account_id : String) where
  -- The bindings of the account to all roles but one are gone: in memory only that one is left, and
  -- the database has deleted the others.
  pub data OthersRemoved (id : String) (before after : World env) : Type 0 where
    in_memory :
        env.db ≡ none
        → lookup account_id after.roles ≡ some (id ∷ [])
        → OthersRemoved id before after
    in_database :
        (db : Database env.Outside env.Tx)
        → env.db ≡ some db
        → db.delete_other_bindings account_id id before.outside ≡ (none, after.outside)
        → OthersRemoved id before after

  keep_only-OthersRemoved :
      (id : String) (w : World env)
      → Ends
          (λ e after. e ≡ none → OthersRemoved id w after)
          (keep_only_account_role env account_id id)
          w
  unfolding keep_only_account_role call
  keep_only-OthersRemoved id w =
      Ends-on_none env.db _ _
        (λ memory. record {
          at = λ _. in_memory memory (lookup-insert_same account_id (id ∷ []) w.roles);
        })
        λ db present. record {
          at = λ quiet.
              in_database db present
                (ap (λ e. (e, (db.delete_other_bindings account_id id w.outside).1)) quiet);
        }

  -- The role was found to be enabled, and then the bindings to all others were removed.
  pub record IsKept (id : String) (after : World env) : Type 0 where
    pub detail : AdminRoleDetail
    pub before : World env
    pub found : (admin_role_detail env none id before).0 ≡ ok (some detail)
    pub enabled : normalize_role_status detail == "enabled" ≡ true
    pub kept : OthersRemoved id (admin_role_detail env none id before).1 after

  -- Of the ids bound to the account to the ids left and the error.
  pub data NormalOutcome (ids : List String) : Normalized → World env → Type 0 where
    failed : {e : Error} {after : World env} → NormalOutcome ids ([], some e) after
    only :
        {after : World env} (id : String)
        → ids ≡ id ∷ []
        → trim_space id == "" ≡ false
        → NormalOutcome ids (trim_space id ∷ [], none) after
    chosen :
        {after : World env} (id : String)
        → Memᴰ id (map trim_space ids)
        → id == "" ≡ false
        → IsKept id after
        → NormalOutcome ids (id ∷ [], none) after

  -- The outcomes of the loop.
  data LoopOutcome (ids : List String) : Normalized → World env → Type 0 where
    failed : {e : Error} {after : World env} → LoopOutcome ids ([], some e) after
    chosen :
        {after : World env} (id : String)
        → Memᴰ id (map trim_space ids)
        → id == "" ≡ false
        → IsKept id after
        → LoopOutcome ids (id ∷ [], none) after

  later :
      (id : String) (ids : List String) (n : Normalized) (after : World env)
      → LoopOutcome ids n after
      → LoopOutcome (id ∷ ids) n after
  later id ids _ _ LoopOutcome.failed = LoopOutcome.failed
  later id ids _ _ (LoopOutcome.chosen role member filled kept) =
      LoopOutcome.chosen role (Memᴰ.tail member) filled kept

  try_role-Outcome :
      (raw : String) (ids : List String) (rest : Exec (World env) Normalized) (w : World env)
      → ((w : World env) → Ends (LoopOutcome ids) rest w)
      → Ends (LoopOutcome (raw ∷ ids)) (try_role env account_id (trim_space raw) rest) w
  unfolding try_role keep_enabled
  try_role-Outcome raw ids rest w others =
      let id = trim_space raw in
      let next : (w : World env) → Ends (LoopOutcome (raw ∷ ids)) rest w =
        λ w. record { at = later raw ids _ _ (others w).at } in
      Ends-if (id == "") _ _ (λ _. next w)
        λ filled. Ends-bind (admin_role_detail env none id) _ (
          Ends-on_error _ _ _ (λ e _. Ends-pure _ LoopOutcome.failed)
            λ row found.
              Ends-on_none row _ _ (λ _. next _)
                λ detail same.
                  Ends-if (normalize_role_status detail == "enabled") _ _
                    (λ enabled. Ends-bind (keep_only_account_role env account_id id) _ (
                      Ends-on_some _ _ _ (λ e _. Ends-pure _ LoopOutcome.failed)
                        λ quiet. Ends-pure _ (
                          LoopOutcome.chosen id (Memᴰ.head refl) filled (record {
                            detail = detail;
                            before = w;
                            found = found ∙ ap ok same;
                            enabled = enabled;
                            kept =
                                (keep_only-OthersRemoved id (admin_role_detail env none id w).1).at
                                  quiet;
                          }))))
                    (λ _. next _))

  first_enabled-Outcome :
      (ids : List String) (w : World env)
      → Ends (LoopOutcome ids) (first_enabled env account_id ids) w
  unfolding first_enabled
  first_enabled-Outcome [] w = Ends-pure _ LoopOutcome.failed
  first_enabled-Outcome (raw ∷ ids) w = try_role-Outcome raw ids _ w (first_enabled-Outcome ids)

  -- normalizeAccountRoles ends in an error with no role, or leaves one role: the only one bound,
  -- trimmed and not empty, or, of several, one that is bound and that the role module reports as
  -- enabled, and then the bindings to the others are gone: in memory that role alone is left, and
  -- with a database the statement that deletes the others was the last one and succeeded.
  pub normalize_account_roles-Outcome :
      (ids : List String) (w : World env)
      → NormalOutcome ids
          (normalize_account_roles env account_id ids w).0
          (normalize_account_roles env account_id ids w).1
  unfolding normalize_account_roles pure
  normalize_account_roles-Outcome [] w = failed
  normalize_account_roles-Outcome (raw ∷ []) w =
      let go : Ends (NormalOutcome (raw ∷ [])) (normalize_account_roles env account_id (raw ∷ []))
          w =
        (Ends-if (trim_space raw == "") _ _ (λ _. Ends-pure _ failed)
          λ filled. Ends-pure _ (only raw refl filled)) in
      go.at
  normalize_account_roles-Outcome (raw ∷ raw' ∷ ids) w =
      many (first_enabled-Outcome (raw ∷ raw' ∷ ids) w).at
    where
      many :
          {ids : List String} {n : Normalized} {after : World env}
          → LoopOutcome ids n after
          → NormalOutcome ids n after
      many LoopOutcome.failed = failed
      many (LoopOutcome.chosen role member filled kept) = chosen role member filled kept
