-- ===== src/Selftest/Tallies.antt =====
-- The counts that a tally of selftest.go keeps beside its results.
use mathlib.Core.Bool.{not}
use omps_admin_plugin_accoun.Prelude.{
  ℕ, ◌+◌, ◌≡◌, Bool, true, false, List, [], ◌∷◌, ◌++◌, arith, if_cases, length, select,
  length-append,
}
use omps_admin_plugin_accoun.Selftest.Run.{
  CaseResult, has_passed, Entry, case_result, Tally, add_failed, add_result,
}

abbrev pub has_passed_entry : Entry → Bool
has_passed_entry (case_result r) = has_passed r.outcome
has_passed_entry _ = false

select-append :
    {A : Type 0} (p : A → Bool) (xs ys : List A)
    → length (select p (xs ++ ys)) ≡ length (select p xs) + length (select p ys)
select-append p [] ys = omega arith
select-append p (x ∷ xs) ys = let later = select-append p xs ys in ground (arith, later)

-- The counts are those of the results.
pub record IsCounted (t : Tally) : Type 0 where
  pub passed : t.passed ≡ length (select has_passed_entry t.results)
  pub failed : t.failed ≡ length (select (λ entry. not (has_passed_entry entry)) t.results)

-- `k` more results than before, and the counts still right.
pub record HasMore (k : ℕ) (t t' : Tally) : Type 0 where
  pub counted : IsCounted t → IsCounted t'
  pub more : length t'.results ≡ length t.results + k

pub HasMore-none : (t : Tally) → HasMore 0 t t
HasMore-none t = record { counted = λ c. c; more = omega arith }

pub HasMore-trans : (j k : ℕ) (a b c : Tally) → HasMore j a b → HasMore k b c → HasMore (j + k) a c
HasMore-trans j k a b c e f = record {
  counted = λ h. f.counted (e.counted h);
  more = omega (arith, e.more, f.more);
}

pub HasMore-failed :
    (entry : Entry) (t : Tally) → has_passed_entry entry ≡ false → HasMore 1 t (add_failed entry t)
HasMore-failed entry t h = record {
  counted = λ c. record {
    passed = ground (arith, c.passed, h, select-append has_passed_entry t.results (entry ∷ []));
    failed = ground (
      arith,
      c.failed,
      h,
      select-append (λ entry. not (has_passed_entry entry)) t.results (entry ∷ []),
    );
  };
  more = omega (arith, length-append t.results (entry ∷ []));
}

HasMore-passed :
    (entry : Entry) (t : Tally)
    → has_passed_entry entry ≡ true
    → HasMore 1 t (record t { passed = t.passed + 1; results = t.results ++ entry ∷ [] })
HasMore-passed entry t h = record {
  counted = λ c. record {
    passed = ground (arith, c.passed, h, select-append has_passed_entry t.results (entry ∷ []));
    failed = ground (
      arith,
      c.failed,
      h,
      select-append (λ entry. not (has_passed_entry entry)) t.results (entry ∷ []),
    );
  };
  more = omega (arith, length-append t.results (entry ∷ []));
}

pub HasMore-result : (r : CaseResult) (t : Tally) → HasMore 1 t (add_result r t)
unfolding add_result
HasMore-result r t =
    if_cases (HasMore 1 t) (has_passed r.outcome) _ _ (HasMore-passed (case_result r) t)
      (HasMore-failed (case_result r) t)
