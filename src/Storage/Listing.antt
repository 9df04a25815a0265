-- ===== src/Storage/Listing.antt =====
-- `listAccounts` of account_storage.go.
use omps_admin_plugin_accoun.Prelude.{
  ℕ, String, ◌<>◌, Bool, ◌&&◌, ◌||◌, Option, none, some, List, [], ◌∷◌, ◌++◌, ◌-◌, ◌==◌, leb,
  length, take, drop, select, map, if◌then◌else◌,
}
use omps_admin_plugin_accoun.Prelude.Int.{ℤ, pos, ltb_ℤ, ◌+ℤ◌, ◌-ℤ◌, ◌*ℤ◌, wrap_64}
use omps_admin_plugin_accoun.Prelude.Text.{contains_text, gtb_text}
use omps_admin_plugin_accoun.Prelude.Dict.{Dict, get_or}
use omps_admin_plugin_accoun.Prelude.Exec.{Exec, pure, ◌>>=◌, on_none, on_some}
use omps_admin_plugin_accoun.Account.{
  AccountRecord, AccountResponse, Error, is_no_valid_account_role, Result, ok, fail, on_error,
}
use omps_admin_plugin_accoun.Platform.{Database, Env, World, call}
use omps_admin_plugin_accoun.Storage.Roles.{Normalized, normalize_account_roles, account_role_ids}
use omps_admin_plugin_accoun.Storage.Changes.{account_to_response}

-- A page of accounts with the total, an error, or the panic of a slice that is out of range.
pub data Listed : Type 0 where
  page : List AccountResponse → ℕ → Listed
  failed : Error → Listed
  out_of_range : Listed

-- `all[start:end]`
unfoldable pub slice {ℓ} : {A : Type ℓ} → List A → ℤ → ℤ → Option (List A)
slice xs (pos start) (pos stop) =
    if leb start stop && leb stop (length xs)
    then some (take (stop - start) (drop start xs))
    else none
slice xs _ _ = none

abbrev pub clip : ℤ → ℤ → ℤ
clip total n = if ltb_ℤ total n then total else n

-- `(page - 1) * pageSize` and `start + pageSize`, in 64 bits, each clipped at the total.
unfoldable pub page_start : ℤ → ℤ → ℤ → ℤ
page_start page_no page_size total = clip total (wrap_64 (wrap_64 (page_no -ℤ pos 1) *ℤ page_size))

unfoldable pub page_end : ℤ → ℤ → ℤ → ℤ
page_end start page_size total = clip total (wrap_64 (start +ℤ page_size))

-- The last lines of `listAccounts`.
unfoldable pub cut_page : List AccountResponse → ℤ → ℤ → Listed
cut_page all page_no page_size =
    let total = length all in
    let start = page_start page_no page_size (pos total) in
    on_none (slice all start (page_end start page_size (pos total))) (out_of_range)
      λ items. page items total

-- The order in which `sort.Slice` is asked to sort: the newest account first.
abbrev pub is_newer : AccountResponse → AccountResponse → Bool
is_newer a b = gtb_text a.created_at b.created_at

-- An empty filter admits every account.
abbrev pub filter_arg : String → String → Option String
filter_arg arg text = if text == "" then none else some arg

-- `roles[:1]` if there are more
abbrev pub first_role : List String → List String
first_role [] = []
first_role (r ∷ rs) = r ∷ []

module _ (env : Env) where
  -- The filters of the loop over the map.
  unfoldable pub is_listed : String → String → AccountRecord → Bool
  is_listed status keyword acc =
      (status == "" || acc.status == status)
      && (keyword == "" || contains_text (env.to_lower acc.username) keyword)

  -- An account that has no valid role is listed without one.
  abbrev pub tolerate : AccountRecord → Normalized → Result AccountResponse
  tolerate acc (roles, none) = ok (account_to_response env acc roles)
  tolerate acc (roles, some e) =
      if is_no_valid_account_role e then ok (account_to_response env acc roles) else fail e

  -- One round of the loop over the rows.
  unfoldable pub row_item : AccountRecord → Exec (World env) (Result AccountResponse)
  row_item acc = do
    ids ← account_role_ids env acc.id
    on_error ids (λ e. pure (fail e))
        λ roles. do
          normalized ← normalize_account_roles env acc.id roles
          pure (tolerate acc normalized)

  unfoldable pub rows_loop :
      List AccountRecord → List AccountResponse → Exec (World env) (Result (List AccountResponse))
  rows_loop [] items = pure (ok items)
  rows_loop (acc ∷ accs) items = do
    item ← row_item acc
    on_error item (λ e. pure (fail e)) λ response. rows_loop accs (items ++ response ∷ [])

  abbrev pub as_listed : ℕ → Result (List AccountResponse) → Listed
  as_listed total (ok items) = page items total
  as_listed total (fail e) = failed e

  unfoldable pub list_accounts_db :
      Database env.Outside env.Tx → String → String → ℤ → ℤ → Exec (World env) Listed
  list_accounts_db db status keyword page_no page_size = do
    let by_status = filter_arg status status
    let by_keyword = filter_arg ("%" <> keyword <> "%") keyword
    counted ← call (db.count_accounts by_status by_keyword)
    on_error counted (λ e. pure (failed e))
        λ total. do
          rows ← call (
              db.select_page by_status by_keyword page_size
                (wrap_64 (wrap_64 (page_no -ℤ pos 1) *ℤ page_size)))
          on_error rows (λ e. pure (failed e))
              λ accs. do items ← rows_loop accs []; pure (as_listed total items)

  -- One account of the map in the list, with one role at most.
  abbrev pub listed_response : Dict (List String) → AccountRecord → AccountResponse
  listed_response roles acc = account_to_response env acc (first_role (get_or [] acc.id roles))

  -- The branch without a database, over the two maps.
  unfoldable pub list_accounts_memory :
      String → String → ℤ → ℤ → Dict AccountRecord → Dict (List String) → Exec (World env) Listed
  list_accounts_memory status keyword page_no page_size accounts roles = do
    accs ← call (env.range_accounts accounts)
    let all = map (listed_response roles) (select (is_listed status keyword) accs)
    pure (cut_page (env.sort_slice is_newer all) page_no page_size)

  unfoldable pub list_accounts : String → String → ℤ → ℤ → Exec (World env) Listed
  list_accounts status keyword page_no page_size =
      on_some env.db (λ db. list_accounts_db db status keyword page_no page_size)
        (λ w. list_accounts_memory status keyword page_no page_size w.accounts w.roles w)
