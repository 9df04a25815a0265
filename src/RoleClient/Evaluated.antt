-- ===== src/RoleClient/Evaluated.antt =====
-- What `evaluateRolePermission` and `rolesAvailable` promise of their answer.
use mathlib.Core.Bool.{not}
use mathlib.Core.List.{append_assoc, append-nil, map-append}
use omps_admin_plugin_accoun.Prelude.{
  String, ◌≡◌, refl, sym, subst, ap, ◌∙◌, Bool, true, false, ◌&&◌, ◌||◌, List, [], ◌∷◌, ◌++◌, map,
  arith, ◌==◌, is_empty, if◌then◌else◌,
}
use omps_admin_plugin_accoun.Prelude.Exec.{pure, ◌>>=◌}
use omps_admin_plugin_accoun.Account.{AccountRoleResponse, Error, Result, ok, fail, on_error}
use omps_admin_plugin_accoun.Platform.{Request, Env, World}
use omps_admin_plugin_accoun.Platform.Ends.{Ends, Ends-pure, Ends-bind, ends_rules}
use omps_admin_plugin_accoun.RoleClient.Permissions.{
  Evaluation, check_round, conclude, evaluate_round, evaluate_loop, evaluate_role_permission,
}

abbrev pub role_ids_of : List AccountRoleResponse → List String
role_ids_of = map (λ role. role.role_id)

abbrev pub all_enabled : List AccountRoleResponse → Bool
all_enabled [] = true
all_enabled (role ∷ roles) = role.role_status == "enabled" && all_enabled roles

all_enabled-append :
    (xs : List AccountRoleResponse) (x : AccountRoleResponse)
    → all_enabled (xs ++ x ∷ []) ≡ (all_enabled xs && x.role_status == "enabled")
all_enabled-append [] x = ground arith
all_enabled-append (y ∷ xs) x = ground (arith, all_enabled-append xs x)

-- The state of the loop after the roles `seen`.
record IsTally (seen : List String) (e : Evaluation) : Type 0 where
  ids : role_ids_of e.roles ≡ seen
  valid : e.has_invalid || all_enabled e.roles ≡ true

data Judged (seen : List String) : Result Evaluation → Type 0 where
  failed : {err : Error} → Judged seen (fail err)
  judged : {e : Evaluation} → IsTally seen e → Judged seen (ok e)

invalid_round :
    (seen : List String) (e : Evaluation) (role_id status : String)
    → IsTally seen e
    → Judged (seen ++ role_id ∷ []) (
        ok (record {
          matched = e.matched;
          roles = e.roles ++ record { role_id = role_id; role_status = status } ∷ [];
          has_invalid = true;
        }))
invalid_round seen e role_id status t =
    judged
      (record { ids = map-append _ e.roles _ ∙ ap (λ l. l ++ role_id ∷ []) t.ids; valid = refl })

check_round-Judged :
    (seen : List String) (e : Evaluation) (role_id : String) (answer : Result (Bool × String))
    → IsTally seen e
    → Judged (seen ++ role_id ∷ []) (check_round role_id e answer)
unfolding check_round
check_round-Judged seen e role_id (fail err) t = failed
check_round-Judged seen e role_id (ok (allowed, role_status)) t =
    go (not (role_status == "") && not (role_status == "enabled"))
  where
    go :
        (b : Bool)
        → Judged (seen ++ role_id ∷ []) (
            if b
            then ok (record {
              matched = e.matched;
              roles = e.roles ++ record { role_id = role_id; role_status = role_status } ∷ [];
              has_invalid = true;
            })
            else ok (record {
              matched = if allowed then e.matched ++ role_id ∷ [] else e.matched;
              roles = e.roles ++ record { role_id = role_id; role_status = "enabled" } ∷ [];
              has_invalid = e.has_invalid;
            }))
    go true = invalid_round seen e role_id role_status t
    go false = judged (record {
      ids = map-append _ e.roles _ ∙ ap (λ l. l ++ role_id ∷ []) t.ids;
      valid = ground (
        arith,
        t.valid,
        all_enabled-append e.roles (record { role_id = role_id; role_status = "enabled" }),
      );
    })

-- The answer, empty where there was an error.
abbrev answer_of :
    Result (List String × List AccountRoleResponse) → List String × List AccountRoleResponse
answer_of (ok answer) = answer
answer_of (fail err) = ([], [])

abbrev none_yet : Evaluation
none_yet = record { matched = []; roles = []; has_invalid = false }

module _ (env : Env) (r : Request) (code : String) where
  evaluate_round-Judged :
      (seen : List String) (role_id : String) (e : Evaluation) (w : World env)
      → IsTally seen e
      → Ends (λ x _. Judged (seen ++ role_id ∷ []) x) (evaluate_round env r code role_id e) w
  unfolding evaluate_round
  evaluate_round-Judged seen role_id e w t =
      search (ends_rules, failed, invalid_round, check_round-Judged) depth 12

  evaluate_loop-Judged :
      (seen ids : List String) (e : Evaluation) (w : World env)
      → IsTally seen e
      → Ends (λ x _. Judged (seen ++ ids) x) (evaluate_loop env r code ids e) w
  unfolding evaluate_loop on_error
  evaluate_loop-Judged seen [] e w t =
      Ends-pure _ (subst (λ l. Judged l (ok e)) (sym (append-nil seen)) (judged t))
  evaluate_loop-Judged seen (role_id ∷ ids) e w t = Ends-bind _ _ (
      go _ (evaluate_loop-Judged (seen ++ role_id ∷ []) ids) _
        (evaluate_round-Judged seen role_id e w t).at)
    where
      go :
          (w' : World env)
          (rest : (e' : Evaluation) (w'' : World env)
            → IsTally (seen ++ role_id ∷ []) e'
            → Ends
                (λ x _. Judged ((seen ++ role_id ∷ []) ++ ids) x)
                (evaluate_loop env r code ids e')
                w'')
          (x : Result Evaluation)
          → Judged (seen ++ role_id ∷ []) x
          → Ends
              (λ y _. Judged (seen ++ role_id ∷ ids) y)
              (on_error x (λ err. pure (fail err)) λ e'. evaluate_loop env r code ids e')
              w'
      go w' rest _ failed = Ends-pure _ failed
      go w' rest _ (judged {e = e'} t') =
          subst (λ l. Ends (λ y _. Judged l y) (evaluate_loop env r code ids e') w')
            (append_assoc seen (role_id ∷ []) ids) (rest e' w' t')

  -- Where evaluateRolePermission has an answer, it has a status for each role in the order asked,
  -- and if it names a matching role then every role asked about is enabled.
  pub evaluate_role_permission_sound :
      (ids matched : List String) (roles : List AccountRoleResponse) (w : World env)
      → (evaluate_role_permission env r ids code w).0 ≡ ok (matched, roles)
      → (role_ids_of roles ≡ ids) × (is_empty matched || all_enabled roles ≡ true)
  unfolding evaluate_role_permission ◌>>=◌ pure
  evaluate_role_permission_sound ids matched roles w h =
      go _ (evaluate_loop-Judged [] ids none_yet w (record { ids = refl; valid = refl })).at h
    where
      go :
          (x : Result Evaluation)
          → Judged ids x
          → conclude x ≡ ok (matched, roles)
          → (role_ids_of roles ≡ ids) × (is_empty matched || all_enabled roles ≡ true)
      go _ failed e = ground (arith, e)
      go _ (judged {e = e'} t) e =
          let kept : (if e'.has_invalid then [] else e'.matched) ≡ matched =
            ap (λ x. (answer_of x).0) e in
          let shown : e'.roles ≡ roles = ap (λ x. (answer_of x).1) e in
          (
            ap role_ids_of (sym shown) ∙ t.ids,
            subst (λ l. is_empty matched || all_enabled l ≡ true) shown
                (subst (λ l. is_empty l || all_enabled e'.roles ≡ true) kept
                  (ground (arith, t.valid))),
          )
