-- ===== src/Storage/Created.antt =====
-- What `createAccount` does to the two maps, and what `getAccountByAccount` says of a user name that it
-- does not find, where the plugin has no database.
use mathlib.Core.List.{Memᴰ}
use omps_admin_plugin_accoun.Prelude.{
  Option-cases, inl, inr, ℕ, zero, suc, String, ◌≡◌, refl, sym, ap, ◌∙◌, true, false, Option, none,
  some, List, [], ◌∷◌, arith, ◌==◌, eq_iff, if◌then◌else◌,
}
use omps_admin_plugin_accoun.Prelude.Dict.{Dict, lookup, lookup-insert, get_or}
use omps_admin_plugin_accoun.Prelude.Exec.{Exec, pure, ◌>>=◌, on_none, on_some-none}
use omps_admin_plugin_accoun.Account.{AccountRecord, Error, Found, Result, ok}
use omps_admin_plugin_accoun.Platform.{Env, Maps, World, call}
use omps_admin_plugin_accoun.Platform.Keeps.{Keeps, keeps_rules}
use omps_admin_plugin_accoun.Platform.Ends.{accounts-unchanged}
use omps_admin_plugin_accoun.Tokens.{new_short_id, next_fallback, short_id_of_clock}
use omps_admin_plugin_accoun.Storage.Lookup.{
  find_username, with_roles, found_with, get_account_memory, search_username,
  get_account_by_account,
}
use omps_admin_plugin_accoun.Storage.Changes.{
  new_account, hash_password, create_account_memory, create_account,
}

module _ {ι} (env : Env) {Q : Maps → Type ι} where
  next_fallback-Keeps : (i fallback : ℕ) → Keeps Q (next_fallback env i fallback)
  unfolding next_fallback
  next_fallback-Keeps i fallback = search keeps_rules

  short_id_of_clock-Keeps : (left i fallback : ℕ) → Keeps Q (short_id_of_clock env left i fallback)
  unfolding short_id_of_clock
  short_id_of_clock-Keeps zero i fallback = search keeps_rules
  short_id_of_clock-Keeps (suc left) i fallback =
      search (keeps_rules, next_fallback-Keeps, short_id_of_clock-Keeps left)

  new_short_id-Keeps : Keeps Q (new_short_id env)
  unfolding new_short_id
  new_short_id-Keeps = search (keeps_rules, short_id_of_clock-Keeps)

-- The id that is drawn once the clock was read.
abbrev pub drawn : (env : Env) → World env → String × World env
drawn env w = new_short_id env (call env.now w).1

-- The record that is written in a state.
abbrev pub created : (env : Env) → String → String → String → World env → AccountRecord
created env account password status w =
    new_account (drawn env w).0 account (hash_password env password) status (env.now w.outside).0

module _ (env : Env) (memory : env.db ≡ none) (account password status : String)
    (role_ids : List String) (w : World env) where
  create_account-memory :
      create_account env account password status role_ids w
      ≡ create_account_memory env
          (env.now w.outside).0
          account
          (hash_password env password)
          status
          role_ids
          (call env.now w).1
  unfolding create_account ◌>>=◌ call
  create_account-memory =
      ap (λ (m : Exec (World env) (Result AccountRecord)). m (call env.now w).1)
        (on_some-none env.db _ _ memory)

  drawn-accounts : (drawn env w).1.accounts ≡ w.accounts
  unfolding call
  drawn-accounts = accounts-unchanged (new_short_id env) (call env.now w).1 (new_short_id-Keeps env)

  pub create_account-result :
      (create_account env account password status role_ids w).0
      ≡ ok (created env account password status w)
  unfolding create_account_memory ◌>>=◌
  create_account-result = ap (λ p. p.0) create_account-memory

  pub lookup-create_account :
      (k : String)
      → lookup k (create_account env account password status role_ids w).1.accounts ≡ (
          if (drawn env w).0 == k
          then some (created env account password status w)
          else lookup k w.accounts)
  unfolding create_account_memory ◌>>=◌
  lookup-create_account k =
      ap (λ p. lookup k p.1.accounts) create_account-memory
      ∙ lookup-insert (drawn env w).0 k (created env account password status w)
          (drawn env w).1.accounts
      ∙ ap
          (λ m.
            if (drawn env w).0 == k
            then some (created env account password status w)
            else lookup k m)
          drawn-accounts

  pub roles-create_account :
      lookup (drawn env w).0 (create_account env account password status role_ids w).1.roles
      ≡ some role_ids
  unfolding create_account_memory ◌>>=◌
  roles-create_account =
      ap (λ p. lookup (drawn env w).0 p.1.roles) create_account-memory
      ∙ ground (
        arith,
        lookup-insert (drawn env w).0 (drawn env w).0 role_ids (drawn env w).1.roles,
        eq_iff (drawn env w).0 (drawn env w).0,
      )

-- What Go documents of `range` over a map: it comes by every entry.
abbrev pub RangesAll : Env → Type 0
RangesAll env =
    (m : Dict AccountRecord) (o : env.Outside) (k : String) (acc : AccountRecord)
    → lookup k m ≡ some acc
    → Memᴰ acc (env.range_accounts m o).0

find_username-none :
    (account : String) (accs : List AccountRecord) (acc : AccountRecord)
    → find_username account accs ≡ none
    → Memᴰ acc accs
    → acc.username == account ≡ false
find_username-none account [] acc h m = elim m [ ]
find_username-none account (a ∷ accs) acc h (Memᴰ.head e) = ground (arith, e, h)
find_username-none account (a ∷ accs) acc h (Memᴰ.tail m) =
    find_username-none account accs acc (ground (arith, h)) m

with_roles-exists :
    (acc : AccountRecord) (n : List String × Option Error) → (with_roles acc n).exists ≡ true
with_roles-exists acc (roles, none) = refl
with_roles-exists acc (roles, some e) = ground arith

module _ (env : Env) where
  found_with-exists :
      (acc : AccountRecord) (ids : List String) (w : World env)
      → (found_with env acc ids w).0.exists ≡ true
  unfolding found_with ◌>>=◌ pure
  found_with-exists acc ids w = with_roles-exists acc _

  search_username-missing :
      RangesAll env
      → (account : String) (w : World env)
      → (search_username env account w.accounts w).0.exists ≡ false
      → (k : String) (acc : AccountRecord) → lookup k w.accounts ≡ some acc
      → acc.username == account ≡ false
  unfolding search_username ◌>>=◌ call get_account_memory on_none
  search_username-missing ranges account w h k acc here =
      elim (Option-cases (find_username account (env.range_accounts w.accounts w.outside).0)) [
        | inl none_found ↦
            find_username-none account _ acc none_found (ranges w.accounts w.outside k acc here)
        | inr (a, found) ↦ ground (
          arith,
          found,
          h,
          found_with-exists a (get_or [] a.id w.roles)
              (call {env = env} (env.range_accounts w.accounts) w).1,
        )
      ]

  -- No account has a user name that `getAccountByAccount` did not find.
  pub get_account_by_account-missing :
      env.db ≡ none
      → RangesAll env
      → (account : String) (w : World env) → (get_account_by_account env account w).0.exists ≡ false
      → (k : String) (acc : AccountRecord) → lookup k w.accounts ≡ some acc
      → acc.username == account ≡ false
  unfolding get_account_by_account
  get_account_by_account-missing memory ranges account w h =
      search_username-missing ranges account w (
        sym (ap (λ (m : Exec (World env) Found). (m w).0.exists) (on_some-none env.db _ _ memory))
        ∙ h)
