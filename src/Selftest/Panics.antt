-- ===== src/Selftest/Panics.antt =====
-- The panic that ends a run of selftest.go: a request that `httptest.NewRequest` cannot build, outside the
-- `recover` around the handler of a case; and the tallies of the runs that end.
use omps_admin_plugin_accoun.Prelude.{
  ℕ, ◌+◌, String, subst, ◌<>◌, ◌≡◌, sym, Option, none, some, List, ◌∷◌,
}
use omps_admin_plugin_accoun.Prelude.Dict.{Dict}
use omps_admin_plugin_accoun.Account.{ok}
use omps_admin_plugin_accoun.Platform.{Env, World}
use omps_admin_plugin_accoun.Platform.Ends.{Ends, Ends-pure, Ends-bind, Ends-if, Ends-on_none}
use omps_admin_plugin_accoun.Selftest.Template.{
  TemplateVars, build_template_vars, apply_template_vars,
}
use omps_admin_plugin_accoun.Selftest.Harness.{
  Handler, SelftestCase, SelftestFile, DirEntry, Harness,
}
use omps_admin_plugin_accoun.Selftest.Run.{
  CaseOutcome, is_skipped_kind, target_of, result_of, run_routed, run_http, run_single_case, Tally,
}
use omps_admin_plugin_accoun.Selftest.Tallies.{HasMore, HasMore-trans}

-- What `httptest.NewRequest` panics on: the method and the path of a case, once the placeholders of the
-- path are replaced by the variables that are built in some state.
pub record IsUnbuildable {env : Env} (h : Harness env) (routes : Dict (Handler env)) (api : String)
    (c : SelftestCase) : Type 0 where
  pub start : World env
  pub refused :
      h.new_request
        (target_of h routes api c).0
        (apply_template_vars env
          (target_of h routes api c).1
          (build_template_vars env start).0
          (build_template_vars env start).1).0.0
      ≡ none

-- Some element of a list has a property.
pub data Any {A : Type 0} (P : A → Type 0) : List A → Type 0 where
  here : {x : A} {xs : List A} → P x → Any P (x ∷ xs)
  there : {x : A} {xs : List A} → Any P xs → Any P (x ∷ xs)

-- A file is read and parsed, and one of its cases has a request that cannot be built.
pub record HasUnbuildable {env : Env} (h : Harness env) (routes : Dict (Handler env)) (f : DirEntry)
    : Type 0 where
  pub raw : String
  pub parsed : SelftestFile
  pub read : h.read_file ("tests/" <> f.name) ≡ ok raw
  pub decoded : h.unmarshal_file raw ≡ ok parsed
  pub found : Any (IsUnbuildable h routes parsed.api) parsed.cases

-- Of an action that may panic: it ends in a value, or panics on the ground `P`.
pub data Answers {A : Type 0} (P : Type 0) : Option A → Type 0 where
  lost : P → Answers P none
  given : (a : A) → Answers P (some a)

-- It ends in a tally with `k` more results, or panics on the ground `P`.
pub data EndsWith (P : Type 0) (k : ℕ) (t : Tally) : Option Tally → Type 0 where
  stopped : P → EndsWith P k t none
  tallied : (t' : Tally) → HasMore k t t' → EndsWith P k t (some t')

-- The same outcome for the same count and on a weaker ground.
pub EndsWith-map :
    {P Q : Type 0} {k : ℕ} {t : Tally} {o : Option Tally}
    → (P → Q)
    → EndsWith P k t o
    → EndsWith Q k t o
EndsWith-map f (stopped p) = stopped (f p)
EndsWith-map f (tallied t' more) = tallied t' more

-- Some results first, and then the rest of a loop.
pub EndsWith-trans :
    {P : Type 0} (m n k : ℕ) {t t' : Tally} {o : Option Tally}
    → k ≡ m + n
    → HasMore m t t'
    → EndsWith P n t' o
    → EndsWith P k t o
EndsWith-trans m n k sum first (stopped p) = stopped p
EndsWith-trans m n k {t} {t'} sum first (tallied last rest) =
    tallied last (subst (λ k. HasMore k t last) (sym sum) (HasMore-trans m n t t' last first rest))

module _ {env : Env} (h : Harness env) (routes : Dict (Handler env)) where
  run_routed-Answers :
      (c : SelftestCase) (method path : String) (handler : Handler env) (v : TemplateVars)
      (w : World env)
      → Ends
          (λ o _. Answers (h.new_request method path ≡ none) o)
          (run_routed h routes c method path handler v)
          w
  unfolding run_routed
  run_routed-Answers c method path handler v w = Ends-bind _ _ (
      Ends-on_none _ _ _ (λ absent. Ends-pure _ (lost absent))
        λ r e. Ends-bind _ _ (Ends-pure _ (given _)))

  run_http-Answers :
      (api : String) (c : SelftestCase) (w : World env)
      → Ends (λ o _. Answers (IsUnbuildable h routes api c) o) (run_http h routes api c) w
  unfolding run_http
  run_http-Answers api c w =
      let built = build_template_vars env w in
      let path = apply_template_vars env (target_of h routes api c).1 built.0 built.1 in
      Ends-bind _ _ (
        Ends-bind _ _ (
          Ends-bind _ _ (
            Ends-on_none _ _ _ (λ absent. Ends-pure _ (given _))
              λ handler e. record {
                at =
                    weaken
                      (run_routed-Answers c (target_of h routes api c).0 path.0.0 handler path.0.1
                        _).at;
              })))
    where
      weaken :
          {o : Option CaseOutcome}
          → Answers
              (h.new_request
                  (target_of h routes api c).0
                  (apply_template_vars env
                    (target_of h routes api c).1
                    (build_template_vars env w).0
                    (build_template_vars env w).1).0.0
                ≡ none)
              o
          → Answers (IsUnbuildable h routes api c) o
      weaken (lost e) = lost (record { start = w; refused = e })
      weaken (given a) = given a

  pub run_single_case-Answers :
      (api file : String) (i : ℕ) (c : SelftestCase) (w : World env)
      → Ends
          (λ o _. Answers (IsUnbuildable h routes api c) o)
          (run_single_case h routes api file i c)
          w
  unfolding run_single_case
  run_single_case-Answers api file i c w =
      Ends-if (is_skipped_kind (env.to_lower c.kind)) _ _ (λ skip. Ends-pure _ (given _))
        λ run.
          Ends-bind (run_http h routes api c) _
            (Ends-pure _ (answered (run_http-Answers api c w).at))
    where
      answered :
          {o : Option CaseOutcome}
          → Answers (IsUnbuildable h routes api c) o
          → Answers (IsUnbuildable h routes api c) (result_of api file i c o)
      answered (lost p) = lost p
      answered (given outcome) = given _
