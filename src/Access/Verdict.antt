-- ===== src/Access/Verdict.antt =====
-- What `requireAccountManageToken` decides, and on which grounds.
use omps_admin_plugin_accoun.Prelude.{
  ℕ, ◌<◌, String, ◌≡◌, refl, ap, Bool, true, false, List, arith, ◌==◌, is_empty, eqb, not-true,
  not-false,
}
use omps_admin_plugin_accoun.Prelude.Int.{pos}
use omps_admin_plugin_accoun.Prelude.Exec.{Exec, pure, ◌>>=◌}
use omps_admin_plugin_accoun.Account.{AccountRecord, Error, Result, ok, fail, Current}
use omps_admin_plugin_accoun.Json.{null, Response, json, write_json}
use omps_admin_plugin_accoun.Platform.{Request, Env, World}
use omps_admin_plugin_accoun.Platform.Ends.{Ends, Ends-pure, Ends-if, Ends-bind, Ends-on_error}
use omps_admin_plugin_accoun.RoleClient.Permissions.{matched_role_ids_for_permission}
use omps_admin_plugin_accoun.Access.{
  Guarded, granted, refused, ◌>>?◌, is_account_ok, current_operator, check_manage_permission,
  require_account_manage_token,
}

-- A reply whose status is 0.
abbrev pub is_success : Response → Bool
is_success (json (pos status) payload msg) = eqb status 0
is_success _ = false

-- What a guard grants is what the handler goes on with.
pub granted-continues :
    {env : Env} {A : Type 0} (m : Exec (World env) (Guarded A)) (k : A → Exec (World env) Response)
    (w w' : World env) (a : A)
    → m w ≡ (granted a, w')
    → (m >>? k) w ≡ k a w'
unfolding ◌>>=◌
granted-continues m k w w' a e =
    ap
      (λ p.
        (elim p.0 as (λ _. Exec (World _) Response) [
          | granted b ↦ k b
          | refused response ↦ pure response
        ])
          p.1)
      e

module _ {ι} {env : Env} {A : Type 0} {P : Response → World env → Type ι} {w : World env} where
  -- A handler goes on with what its guard grants, or ends with the guard's response.
  pub Ends-guard :
      (m : Exec (World env) (Guarded A)) (k : A → Exec (World env) Response)
      → ((a : A) → (m w).0 ≡ granted a → Ends P (k a) (m w).1)
      → ((response : Response) → (m w).0 ≡ refused response → P response (m w).1)
      → Ends P (m >>? k) w
  Ends-guard m k p q = Ends-bind m _ (go (m w).0 refl)
    where
      go :
          (g : Guarded A)
          → (m w).0 ≡ g
          → Ends P
              (elim g as (λ _. Exec (World env) Response) [
                | granted a ↦ k a
                | refused response ↦ pure response
              ])
              (m w).1
      go (granted a) e = p a e
      go (refused response) e = Ends-pure response (q response e)

module _ (env : Env) (r : Request) (token : String) (invalid denied failure_code : ℕ)
    (w : World env) where
  abbrev operator : Current
  operator = (current_operator env r token w).0

  -- The roles of the operator that hold the permission, as the role module answers.
  abbrev matched : Result (List String)
  matched =
      (matched_role_ids_for_permission env r operator.roles "admin_account.manage"
        (current_operator env r token w).1).0

  pub data ManageVerdict : Guarded AccountRecord → Type 0 where
    not_logged_in :
        is_account_ok operator.state ≡ false
        → ManageVerdict (refused (write_json invalid null "未登录"))
    disabled :
        operator.acc.status == "enabled" ≡ false
        → ManageVerdict (refused (write_json invalid null "未登录"))
    check_failed :
        {e : Error}
        → operator.acc.is_super_admin ≡ false
        → matched ≡ fail e
        → ManageVerdict (refused (write_json failure_code null "账号管理权限校验失败"))
    not_permitted :
        {ids : List String}
        → operator.acc.is_super_admin ≡ false
        → matched ≡ ok ids
        → is_empty ids ≡ true
        → ManageVerdict (refused (write_json denied null "无账号管理权限"))
    super_admin :
        is_account_ok operator.state ≡ true
        → operator.acc.status == "enabled" ≡ true
        → operator.acc.is_super_admin ≡ true
        → ManageVerdict (granted operator.acc)
    permitted :
        {ids : List String}
        → is_account_ok operator.state ≡ true
        → operator.acc.status == "enabled" ≡ true
        → operator.acc.is_super_admin ≡ false
        → matched ≡ ok ids
        → is_empty ids ≡ false
        → ManageVerdict (granted operator.acc)

  check_manage_permission-Verdict :
      is_account_ok operator.state ≡ true
      → operator.acc.status == "enabled" ≡ true
      → operator.acc.is_super_admin ≡ false
      → Ends
          (λ g _. ManageVerdict g)
          (check_manage_permission env r operator denied failure_code)
          (current_operator env r token w).1
  unfolding check_manage_permission
  check_manage_permission-Verdict ok_state enabled ordinary = Ends-bind _ _ (
      Ends-on_error _ _ _ (λ e h. Ends-pure _ (check_failed ordinary h))
        λ ids h.
          Ends-if _ _ _ (λ t. Ends-pure _ (permitted ok_state enabled ordinary h (not-true _ t)))
            (λ t. Ends-pure _ (not_permitted ordinary h (not-false _ t))))

  -- requireAccountManageToken grants only the account that the token or the headers name, in a
  -- valid state and enabled, and only if it is a super administrator or the role module reports a
  -- matching role; every refusal has the code and the ground that the code gives it.
  pub require_account_manage_token-Verdict :
      ManageVerdict (require_account_manage_token env r token invalid denied failure_code w).0
  unfolding require_account_manage_token
  require_account_manage_token-Verdict =
      (Ends-bind {P = λ g _. ManageVerdict g} {w = w} _ _ (
        Ends-if _ _ _ (λ no. Ends-pure _ (not_logged_in (not-true _ no)))
          λ yes.
            Ends-if _ _ _ (λ no. Ends-pure _ (disabled (not-true _ no)))
              λ on.
                Ends-if _ _ _
                  (λ super. Ends-pure _ (super_admin (not-false _ yes) (not-false _ on) super))
                  (λ ordinary.
                    check_manage_permission-Verdict (not-false _ yes) (not-false _ on)
                      ordinary))).at

  -- No refusal is a success.
  pub refused-is_success :
      0 < invalid
      → 0 < denied
      → 0 < failure_code
      → (response : Response)
      → (require_account_manage_token env r token invalid denied failure_code w).0
        ≡ refused response
      → is_success response ≡ false
  refused-is_success p q s response h = go _ require_account_manage_token-Verdict h
    where
      go :
          (g : Guarded AccountRecord)
          → ManageVerdict g
          → g ≡ refused response
          → is_success response ≡ false
      go _ (not_logged_in _) e = ground arith
      go _ (disabled _) e = ground arith
      go _ (check_failed _ _) e = ground arith
      go _ (not_permitted _ _ _) e = ground arith
      go _ (super_admin _ _ _) e = ground arith
      go _ (permitted _ _ _ _ _) e = ground arith
