-- ===== src/Storage/Paging.antt =====
-- The pages of `listAccounts` without a database, for the numbers that `parsePage` lets through.
use mathlib.Core.Option.{none-ne-some, some-injective}
use omps_admin_plugin_accoun.Prelude.{
  ℕ, ◌+◌, ◌-◌, ◌*◌, ◌^◌, ◌≤◌, ◌≡◌, refl, subst, ap, ◌∙◌, Bool, true, false, ◌||◌, Option, none,
  some, List, arith, ltb, length, take, drop, ◌==◌, if◌then◌else◌,
}
use omps_admin_plugin_accoun.Prelude.Int.{
  ℤ, pos, negsuc, pos_part, ◌+ℤ◌, ◌-ℤ◌, ◌*ℤ◌, wrap_64, wrap_64-pos,
}
use omps_admin_plugin_accoun.Prelude.Text.{atoi}
use omps_admin_plugin_accoun.Prelude.Dict.{get_or}
use omps_admin_plugin_accoun.Prelude.Exec.{on_none}
use omps_admin_plugin_accoun.Account.{AccountResponse}
use omps_admin_plugin_accoun.Platform.{Request}
use omps_admin_plugin_accoun.Validation.{check_page, parse_page}
use omps_admin_plugin_accoun.Storage.Listing.{
  page, out_of_range, slice, clip, page_start, page_end, cut_page,
}

-- A page number of at least 1 and a size from 1 to 100.
abbrev pub IsPage : ℤ × ℤ → Type 0
IsPage (page_no, page_size) =
    (page_no ≡ pos (pos_part page_no))
    × (page_size ≡ pos (pos_part page_size))
    × (1 ≤ pos_part page_no)
    × (1 ≤ pos_part page_size)
    × (pos_part page_size ≤ 100)

unless_none :
    (b : Bool) (x y : ℤ × ℤ)
    → (if b then none else some x) ≡ some y
    → (b ≡ false → IsPage x)
    → IsPage y
unless_none true x y h k = elim (none-ne-some y h) [ ]
unless_none false x y h k = subst IsPage (some-injective x y h) (k refl)

check_page-IsPage : (a b : Option ℤ) (answer : ℤ × ℤ) → check_page a b ≡ some answer → IsPage answer
check_page-IsPage none b answer h = elim (none-ne-some answer h) [ ]
check_page-IsPage (some a) none answer h = elim (none-ne-some answer h) [ ]
check_page-IsPage (some (pos a)) (some (pos b)) answer h =
    unless_none _ _ _ h λ t. (refl, refl, ground (arith, t), ground (arith, t), ground (arith, t))
check_page-IsPage (some (negsuc a)) (some b) answer h = unless_none _ _ _ h λ t. ground (arith, t)
check_page-IsPage (some (pos a)) (some (negsuc b)) answer h =
    unless_none _ _ _ h λ t. ground (arith, t)

-- If parsePage accepts a request, then its page number is at least 1 and its page size from 1 to
-- 100.
pub parse_page-IsPage : (r : Request) (answer : ℤ × ℤ) → parse_page r ≡ some answer → IsPage answer
unfolding parse_page
parse_page-IsPage r answer h =
    let raw_page = get_or "" "page" r.query in
    let raw_page_size = get_or "" "page_size" r.query in
    check_page-IsPage (atoi raw_page) (atoi raw_page_size) answer
      (else_some (raw_page == "" || raw_page_size == "") _ answer h)
  where
    else_some :
        (b : Bool) (o : Option (ℤ × ℤ)) (y : ℤ × ℤ) → (if b then none else o) ≡ some y → o ≡ some y
    else_some true o y h = elim (none-ne-some y h) [ ]
    else_some false o y h = h

-- The first row of the page before it is brought into 64 bits.
page_product :
    (p s k : ℕ)
    → 1 ≤ p
    → p ≤ 2 ^ 63 - 1
    → k ≡ (p - 1) * s
    → wrap_64 (pos p -ℤ pos 1) *ℤ pos s ≡ pos k
unfolding ◌-ℤ◌ ◌*ℤ◌
page_product p s k h m e =
    ap (λ n. wrap_64 n *ℤ pos s) (one_less p h)
    ∙ ap (λ n. n *ℤ pos s) (wrap_64-pos (p - 1) (ground arith))
    ∙ product (p - 1) s k e
  where
    one_less : (p : ℕ) → 1 ≤ p → pos p -ℤ pos 1 ≡ pos (p - 1)
    one_less p h = ground arith

    product : (a b k : ℕ) → k ≡ a * b → pos a *ℤ pos b ≡ pos k
    product a b k e = ground (arith, e)

page_start-clipped :
    (p s k total : ℕ)
    → 1 ≤ p
    → p ≤ 2 ^ 63 - 1
    → k ≡ (p - 1) * s
    → k ≤ 2 ^ 63 - 1
    → page_start (pos p) (pos s) (pos total) ≡ pos (if ltb total k then total else k)
unfolding page_start
page_start-clipped p s k total h m e l =
    ap (λ n. clip (pos total) (wrap_64 n)) (page_product p s k h m e)
    ∙ ap (clip (pos total)) (wrap_64-pos k l)
    ∙ ground arith

page_start-negative :
    (p s k total : ℕ)
    → 1 ≤ p
    → p ≤ 2 ^ 63 - 1
    → k ≡ (p - 1) * s
    → 2 ^ 63 ≤ k
    → k ≤ 2 ^ 64 - 1
    → page_start (pos p) (pos s) (pos total) ≡ negsuc (2 ^ 64 - k - 1)
unfolding page_start wrap_64
page_start-negative p s k total h m e low high =
    ap (λ n. clip (pos total) (wrap_64 n)) (page_product p s k h m e) ∙ ground (arith, low, high)

page_end-clipped :
    (start s total : ℕ)
    → start + s ≤ 2 ^ 63 - 1
    → page_end (pos start) (pos s) (pos total)
      ≡ pos (if ltb total (start + s) then total else start + s)
unfolding page_end ◌+ℤ◌ wrap_64
page_end-clipped start s total l = ground (arith, l)

slice_within :
    {A : Type 0} (xs : List A) (start stop : ℕ)
    → start ≤ stop
    → stop ≤ length xs
    → slice xs (pos start) (pos stop) ≡ some (take (stop - start) (drop start xs))
unfolding slice
slice_within xs start stop h l = ground (arith, h, l)

-- Where the slice of a page begins and ends.
abbrev pub from : List AccountResponse → ℕ → ℕ
from all k = if ltb (length all) k then length all else k

abbrev pub until : List AccountResponse → ℕ → ℕ → ℕ
until all k s = if ltb (length all) (from all k + s) then length all else from all k + s

-- Where the first row of the page is a number of 64 bits and so is the number of accounts with the
-- page size added, the page that listAccounts cuts without a database begins at the lesser of that
-- row and the number of accounts, ends a page size later or at the last account, and comes with
-- the total: the slice is never out of range.
pub cut_page-within :
    (all : List AccountResponse) (p s k : ℕ)
    → 1 ≤ p
    → p ≤ 2 ^ 63 - 1
    → k ≡ (p - 1) * s
    → k ≤ 2 ^ 63 - 1
    → length all + s ≤ 2 ^ 63 - 1
    → cut_page all (pos p) (pos s)
      ≡ page (take (until all k s - from all k) (drop (from all k) all)) (length all)
unfolding cut_page on_none
cut_page-within all p s k h m e l fits =
    ap
      (λ a.
        on_none (slice all a (page_end a (pos s) (pos (length all)))) out_of_range
          λ items. page items (length all))
      (page_start-clipped p s k (length all) h m e l)
    ∙ ap
        (λ b.
          on_none (slice all (pos (from all k)) b) out_of_range λ items. page items (length all))
        (page_end-clipped (from all k) s (length all) (ground arith))
    ∙ ap (λ o. on_none o out_of_range λ items. page items (length all))
        (slice_within all (from all k) (until all k s) (ground arith) (ground arith))
    ∙ some_page
  where
    some_page :
        on_none
          (some (take (until all k s - from all k) (drop (from all k) all)))
          out_of_range
          (λ items. page items (length all))
        ≡ page (take (until all k s - from all k) (drop (from all k) all)) (length all)
    some_page = refl

-- Where the first row of the page reaches 2 ^ 63 and stays below 2 ^ 64, the slice that
-- listAccounts cuts without a database is out of range.
pub cut_page-overflow :
    (all : List AccountResponse) (p s k : ℕ)
    → 1 ≤ p
    → p ≤ 2 ^ 63 - 1
    → k ≡ (p - 1) * s
    → 2 ^ 63 ≤ k
    → k ≤ 2 ^ 64 - 1
    → cut_page all (pos p) (pos s) ≡ out_of_range
unfolding cut_page on_none slice
cut_page-overflow all p s k h m e low high =
    ap
      (λ a.
        on_none (slice all a (page_end a (pos s) (pos (length all)))) out_of_range
          λ items. page items (length all))
      (page_start-negative p s k (length all) h m e low high)
