-- ===== src/Access/Cleaned.antt =====
-- What `cleanAndValidateRoles` decides, and on which grounds.
use mathlib.Core.Bool.{not}
use omps_admin_plugin_accoun.Prelude.{
  ℕ, ◌<◌, String, ◌≡◌, refl, ap, ◌∙◌, Bool, true, false, ◌||◌, List, [], ◌∷◌, arith, ◌==◌,
}
use omps_admin_plugin_accoun.Prelude.Text.{trim_space}
use omps_admin_plugin_accoun.Prelude.Exec.{pure}
use omps_admin_plugin_accoun.Account.{Error, Result, ok, fail}
use omps_admin_plugin_accoun.Json.{null, Response, write_json}
use omps_admin_plugin_accoun.Platform.{Request, Env, World}
use omps_admin_plugin_accoun.Platform.Ends.{Ends, Ends-pure, Ends-if, Ends-bind, Ends-on_error}
use omps_admin_plugin_accoun.Validation.{valid_record_id}
use omps_admin_plugin_accoun.RoleClient.{roles_available}
use omps_admin_plugin_accoun.Access.{
  Guarded, granted, refused, validate_role, clean_and_validate_roles,
}
use omps_admin_plugin_accoun.Access.Verdict.{is_success}

-- What the role module answers of one role.
abbrev pub available : (env : Env) → Request → World env → String → Result Bool
available env r w role_id = (roles_available env r (role_id ∷ []) w).0

-- The role ids that are no one valid record id once they are trimmed.
abbrev pub is_malformed : List String → Bool
is_malformed (id ∷ []) = trim_space id == "" || not (valid_record_id (trim_space id))
is_malformed _ = true

-- There is one role id, and it is valid once it is trimmed.
abbrev pub IsOne : List String → String → Type 0
IsOne ids id =
    (ids ≡ id ∷ []) × (trim_space id == "" ≡ false) × (valid_record_id (trim_space id) ≡ true)

module _ (env : Env) (r : Request) (ids : List String) (format_code unavailable_code : ℕ)
    (w : World env) where
  pub data RolesVerdict : Guarded (List String) → Type 0 where
    malformed :
        is_malformed ids ≡ true → RolesVerdict (refused (write_json format_code null "角色参数非法"))
    unreachable :
        (id : String) (e : Error)
        → IsOne ids id
        → available env r w (trim_space id) ≡ fail e
        → RolesVerdict (refused (write_json unavailable_code null "角色不存在或已停用"))
    unavailable :
        (id : String)
        → IsOne ids id
        → available env r w (trim_space id) ≡ ok false
        → RolesVerdict (refused (write_json unavailable_code null "角色不存在或已停用"))
    cleaned :
        (id : String)
        → IsOne ids id
        → available env r w (trim_space id) ≡ ok true
        → RolesVerdict (granted (trim_space id ∷ []))

module _ (env : Env) (r : Request) (format_code unavailable_code : ℕ) (w : World env) where
  clean_one :
      (id : String)
      → Ends
          (λ g _. RolesVerdict env r (id ∷ []) format_code unavailable_code w g)
          (clean_and_validate_roles env r (id ∷ []) format_code unavailable_code)
          w
  unfolding clean_and_validate_roles validate_role
  clean_one id =
      Ends-if (is_malformed (id ∷ [])) _ _ (λ bad. Ends-pure _ (malformed bad))
        λ good.
          let one : IsOne (id ∷ []) id = (refl, ground (arith, good), ground (arith, good)) in
          Ends-bind (roles_available env r (trim_space id ∷ [])) _ (
            Ends-on_error _ _ _ (λ e failed. Ends-pure _ (unreachable id e one failed))
              λ b found.
                Ends-if b _ _ (λ t. Ends-pure _ (cleaned id one (found ∙ ap ok t)))
                  λ t. Ends-pure _ (unavailable id one (found ∙ ap ok t)))

  -- cleanAndValidateRoles grants only the trimmed id of a list with one role, which is a valid
  -- record id and which rolesAvailable found. It refuses with the format code only a list that is
  -- no such one id, and with the other code only where rolesAvailable failed or answered no for
  -- the trimmed id.
  pub clean_and_validate_roles-Verdict :
      (ids : List String)
      → RolesVerdict env r ids format_code unavailable_code w
          (clean_and_validate_roles env r ids format_code unavailable_code w).0
  unfolding clean_and_validate_roles pure
  clean_and_validate_roles-Verdict [] = malformed refl
  clean_and_validate_roles-Verdict (id ∷ []) = (clean_one id).at
  clean_and_validate_roles-Verdict (id ∷ id' ∷ ids) = malformed refl

  pub unclean-is_success :
      0 < format_code
      → 0 < unavailable_code
      → (ids : List String) (response : Response)
      → (clean_and_validate_roles env r ids format_code unavailable_code w).0 ≡ refused response
      → is_success response ≡ false
  unclean-is_success p q ids response h = go _ (clean_and_validate_roles-Verdict ids) h
    where
      go :
          (g : Guarded (List String))
          → RolesVerdict env r ids format_code unavailable_code w g
          → g ≡ refused response
          → is_success response ≡ false
      go _ (malformed _) e = ground arith
      go _ (unreachable _ _ _ _) e = ground arith
      go _ (unavailable _ _ _) e = ground arith
      go _ (cleaned _ _ _) e = ground arith
