-- ===== src/Selftest/Counts.antt =====
-- How `runAllSelftests` ends, and the counts of its tally.
use mathlib.Core.Bool.{not}
use omps_admin_plugin_accoun.Prelude.{
  ℕ, suc, ◌+◌, String, ◌<>◌, ◌≡◌, refl, Bool, true, false, Option, none, some, List, [], ◌∷◌, arith,
  if◌then◌else◌, length,
}
use omps_admin_plugin_accoun.Prelude.Dict.{Dict}
use omps_admin_plugin_accoun.Prelude.Exec.{pure, on_none}
use omps_admin_plugin_accoun.Account.{Result, ok, fail, on_error}
use omps_admin_plugin_accoun.Platform.{Env, World}
use omps_admin_plugin_accoun.Platform.Ends.{Ends, Ends-pure, Ends-bind}
use omps_admin_plugin_accoun.Selftest.Harness.{
  Handler, SelftestCase, SelftestFile, DirEntry, Harness,
}
use omps_admin_plugin_accoun.Selftest.Run.{
  CaseResult, run_single_case, read_failed, parse_failed, Tally, add_failed, add_result, run_cases,
  is_test_file, run_file, run_files, run_all_selftests,
}
use omps_admin_plugin_accoun.Selftest.Tallies.{
  IsCounted, HasMore-none, HasMore-failed, HasMore-result,
}
use omps_admin_plugin_accoun.Selftest.Panics.{
  IsUnbuildable, Any, here, there, HasUnbuildable, Answers, lost, given, EndsWith, stopped, tallied,
  EndsWith-map, EndsWith-trans, run_single_case-Answers,
}

-- How many results a file makes: one for each case, one if it cannot be read, none if it is no test.
abbrev pub results_of : {env : Env} → Harness env → DirEntry → ℕ
results_of h f =
    if not (is_test_file f)
    then 0
    else on_error (h.read_file ("tests/" <> f.name)) (λ e. 1)
        λ raw. on_error (h.unmarshal_file raw) (λ e. 1) λ parsed. length parsed.cases

abbrev pub results_of_all : {env : Env} → Harness env → List DirEntry → ℕ
results_of_all h [] = 0
results_of_all h (f ∷ fs) = results_of h f + results_of_all h fs

module _ {env : Env} (h : Harness env) (routes : Dict (Handler env)) where
  run_cases-EndsWith :
      (api file : String) (i : ℕ) (cs : List SelftestCase) (t : Tally) (w : World env)
      → Ends
          (λ o _. EndsWith (Any (IsUnbuildable h routes api) cs) (length cs) t o)
          (run_cases h routes api file i cs t)
          w
  unfolding run_cases on_none pure
  run_cases-EndsWith api file i [] t w = Ends-pure _ (tallied t (HasMore-none t))
  run_cases-EndsWith api file i (c ∷ cs) t w =
      Ends-bind (run_single_case h routes api file i c) _ (record {
        at =
            go _ (run_single_case-Answers h routes api file i c w).at
              λ r w'. (run_cases-EndsWith api file (suc i) cs (add_result r t) w').at;
      })
    where
      go :
          {o : Option CaseResult} (w' : World env)
          → Answers (IsUnbuildable h routes api c) o
          → ((r : CaseResult) (w' : World env)
              → EndsWith
                  (Any (IsUnbuildable h routes api) cs)
                  (length cs)
                  (add_result r t)
                  (run_cases h routes api file (suc i) cs (add_result r t) w').0)
          → EndsWith
              (Any (IsUnbuildable h routes api) (c ∷ cs))
              (length (c ∷ cs))
              t
              (on_none o
                (pure none)
                (λ r. run_cases h routes api file (suc i) cs (add_result r t))
                w').0
      go w' (lost p) rest = stopped (here p)
      go w' (given r) rest =
          EndsWith-trans 1 (length cs) (length (c ∷ cs)) (omega arith) (HasMore-result r t)
            (EndsWith-map there (rest r w'))

  run_file-EndsWith :
      (f : DirEntry) (t : Tally) (w : World env)
      → Ends
          (λ o _. EndsWith (HasUnbuildable h routes f) (results_of h f) t o)
          (run_file h routes f t)
          w
  unfolding run_file on_error
  run_file-EndsWith f t w = of_test (not (is_test_file f))
    where
      of_parsed :
          (raw : String)
          → h.read_file ("tests/" <> f.name) ≡ ok raw
          → (x : Result SelftestFile) → h.unmarshal_file raw ≡ x
          → Ends
              (λ o _.
                EndsWith
                  (HasUnbuildable h routes f)
                  (on_error x (λ e. 1) λ parsed. length parsed.cases)
                  t
                  o)
              (on_error x
                (λ e. pure (some (add_failed (parse_failed f.name e) t)))
                λ parsed. run_cases h routes parsed.api f.name 0 parsed.cases t)
              w
      of_parsed raw read (ok parsed) decoded = record {
        at =
            EndsWith-map
              (λ found. record {
                raw = raw;
                parsed = parsed;
                read = read;
                decoded = decoded;
                found = found;
              })
              (run_cases-EndsWith parsed.api f.name 0 parsed.cases t w).at;
      }
      of_parsed raw read (fail e) decoded =
          Ends-pure _ (tallied _ (HasMore-failed (parse_failed f.name e) t refl))

      of_raw :
          (x : Result String)
          → h.read_file ("tests/" <> f.name) ≡ x
          → Ends
              (λ o _.
                EndsWith
                  (HasUnbuildable h routes f)
                  (on_error x
                    (λ e. 1)
                    λ raw. on_error (h.unmarshal_file raw) (λ e. 1) λ parsed. length parsed.cases)
                  t
                  o)
              (on_error x
                (λ e. pure (some (add_failed (read_failed f.name e) t)))
                λ raw.
                  on_error
                    (h.unmarshal_file raw)
                    (λ e. pure (some (add_failed (parse_failed f.name e) t)))
                    λ parsed. run_cases h routes parsed.api f.name 0 parsed.cases t)
              w
      of_raw (ok raw) read = of_parsed raw read (h.unmarshal_file raw) refl
      of_raw (fail e) read = Ends-pure _ (tallied _ (HasMore-failed (read_failed f.name e) t refl))

      of_test :
          (b : Bool)
          → Ends
              (λ o _.
                EndsWith
                  (HasUnbuildable h routes f)
                  (if b
                    then 0
                    else on_error
                        (h.read_file ("tests/" <> f.name))
                        (λ e. 1)
                        λ raw.
                          on_error (h.unmarshal_file raw) (λ e. 1) λ parsed. length parsed.cases)
                  t
                  o)
              (if b
                then pure (some t)
                else on_error
                    (h.read_file ("tests/" <> f.name))
                    (λ e. pure (some (add_failed (read_failed f.name e) t)))
                    λ raw.
                      on_error
                        (h.unmarshal_file raw)
                        (λ e. pure (some (add_failed (parse_failed f.name e) t)))
                        λ parsed. run_cases h routes parsed.api f.name 0 parsed.cases t)
              w
      of_test true = Ends-pure _ (tallied t (HasMore-none t))
      of_test false = of_raw (h.read_file ("tests/" <> f.name)) refl

  run_files-EndsWith :
      (fs : List DirEntry) (t : Tally) (w : World env)
      → Ends
          (λ o _. EndsWith (Any (HasUnbuildable h routes) fs) (results_of_all h fs) t o)
          (run_files h routes fs t)
          w
  unfolding run_files on_none pure
  run_files-EndsWith [] t w = Ends-pure _ (tallied t (HasMore-none t))
  run_files-EndsWith (f ∷ fs) t w =
      Ends-bind (run_file h routes f t) _ (record {
        at = go _ (run_file-EndsWith f t w).at λ t' w'. (run_files-EndsWith fs t' w').at;
      })
    where
      go :
          {o : Option Tally} (w' : World env)
          → EndsWith (HasUnbuildable h routes f) (results_of h f) t o
          → ((t' : Tally) (w' : World env)
              → EndsWith
                  (Any (HasUnbuildable h routes) fs)
                  (results_of_all h fs)
                  t'
                  (run_files h routes fs t' w').0)
          → EndsWith
              (Any (HasUnbuildable h routes) (f ∷ fs))
              (results_of h f + results_of_all h fs)
              t
              (on_none o (pure none) (λ t'. run_files h routes fs t') w').0
      go w' (stopped p) rest = stopped (here p)
      go w' (tallied t' first) rest =
          EndsWith-trans (results_of h f) (results_of_all h fs) _ refl first
            (EndsWith-map there (rest t' w'))

  -- Of the files to the tally of the run, or its panic.
  pub data RunOutcome (files : List DirEntry) : Option Tally → Type 0 where
    panicked : Any (HasUnbuildable h routes) files → RunOutcome files none
    counted :
        (t : Tally)
        → IsCounted t
        → length t.results ≡ results_of_all h files
        → RunOutcome files (some t)

  -- runAllSelftests either ends in a tally whose passed and failed counts are those of its
  -- results, and which has one result for each case of each test file and one for each test file
  -- that cannot be read or parsed, or it panics, and then a test file has a case whose request,
  -- its target expanded, httptest.NewRequest cannot build.
  pub run_all_selftests-counts :
      (files : List DirEntry) (w : World env)
      → RunOutcome files (run_all_selftests h routes files w).0
  unfolding run_all_selftests
  run_all_selftests-counts files w = go (run_files-EndsWith files none_yet w).at
    where
      none_yet : Tally
      none_yet = record { passed = 0; failed = 0; results = [] }

      go :
          {o : Option Tally}
          → EndsWith (Any (HasUnbuildable h routes) files) (results_of_all h files) none_yet o
          → RunOutcome files o
      go (stopped p) = panicked p
      go (tallied t more) =
          counted t (more.counted (record { passed = refl; failed = refl }))
            (omega (arith, more.more))
