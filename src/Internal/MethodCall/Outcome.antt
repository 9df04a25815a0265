-- ===== src/Internal/MethodCall/Outcome.antt =====
-- Every way in which `handleMethodCallInternal` answers with status 0, over the plugin's own methods.
use mathlib.Core.Option.{none-ne-some, some-injective}
use mathlib.Core.Bool.{not}
use omps_admin_plugin_accoun.Prelude.{
  String, ◌≡◌, refl, sym, subst, true, false, none, some, [], ◌∷◌, arith, ◌==◌, eq_iff, is_empty,
  if_cases, not-false,
}
use omps_admin_plugin_accoun.Prelude.Dict.{Dict, lookup}
use omps_admin_plugin_accoun.Account.{Result, ok, fail, on_error}
use omps_admin_plugin_accoun.Json.{Json, str, obj, end, field, obj_or_null, Response, write_json}
use omps_admin_plugin_accoun.Platform.{Request, Decoded, Env, World}
use omps_admin_plugin_accoun.Platform.Ends.{
  Ends, Ends-pure, Ends-if, Ends-bind, Ends-on_none, Ends-on_some,
}
use omps_admin_plugin_accoun.Access.Verdict.{is_success}
use omps_admin_plugin_accoun.Temporary.{TemporaryAdminCredential, create_temporary_admin}
use omps_admin_plugin_accoun.Temporary.Issued.{
  IsWritten, TemporaryOutcome, refused, issued, create_temporary_admin-Outcome,
}
use omps_admin_plugin_accoun.Internal.{is_authenticated}
use omps_admin_plugin_accoun.Internal.MethodCall.{
  returned, entries_of, MethodFunc, MethodBody, credential_json, method_reply, selftest_echo,
  call_create_temporary_admin, methods, call_method, handle_method_call_internal,
}

module _ (env : Env) where
  -- Of the method and its arguments to the reply.
  pub data CallOutcome (b : MethodBody) : Response → World env → Type 0 where
    failed :
        {response : Response} {after : World env}
        → is_success response ≡ false
        → CallOutcome b response after
    echoed :
        {after : World env}
        → b.method ≡ "AdminAccountSelftestEcho"
        → CallOutcome b
            (write_json 0
              (obj (field "module" (str "admin_account") (field "echo" (obj_or_null b.args) end)))
              "")
            after
    handed_out :
        {after : World env} (c : TemporaryAdminCredential)
        → b.method ≡ "CreateTemporaryAdmin"
        → entries_of b.args ≡ []
        → IsWritten env c after
        → CallOutcome b (write_json 0 (credential_json c) "") after

  -- Which method a name stands for.
  data IsMethod (name : String) (fn : MethodFunc env) : Type 0 where
    echo : name ≡ "AdminAccountSelftestEcho" → fn ≡ selftest_echo env → IsMethod name fn
    temporary :
        name ≡ "CreateTemporaryAdmin" → fn ≡ call_create_temporary_admin env → IsMethod name fn

  lookup-IsMethod :
      (name : String) (fn : MethodFunc env) → lookup name (methods env) ≡ some fn → IsMethod name fn
  unfolding lookup
  lookup-IsMethod name fn h =
      if_cases (λ o. o ≡ some fn → IsMethod name fn) ("AdminAccountSelftestEcho" == name) _ _
        (λ t e. echo (sym ((eq_iff _ _).0 t)) (sym (some-injective _ fn e)))
        (λ _.
          if_cases (λ o. o ≡ some fn → IsMethod name fn) ("CreateTemporaryAdmin" == name) _ _
            (λ t e. temporary (sym ((eq_iff _ _).0 t)) (sym (some-injective _ fn e)))
            (λ _ e. elim (none-ne-some fn e) [ ]))
        h

  no_args : (args : Dict Json) → not (is_empty args) ≡ false → args ≡ []
  no_args [] h = refl
  no_args (arg ∷ args) h = ground (arith, h)

  call_temporary-Outcome :
      (b : MethodBody) (w : World env)
      → b.method ≡ "CreateTemporaryAdmin"
      → Ends
          (λ result after. CallOutcome b (method_reply result) after)
          (call_create_temporary_admin env b.args)
          w
  unfolding call_create_temporary_admin on_error
  call_temporary-Outcome b w named =
      Ends-if (not (is_empty (entries_of b.args))) _ _ (λ _. Ends-pure _ (failed refl))
        λ empty. Ends-bind (create_temporary_admin env) _ (
          Ends-pure _
            (replied (no_args (entries_of b.args) empty) (create_temporary_admin-Outcome env w)))
    where
      replied :
          {result : Result TemporaryAdminCredential} {after : World env}
          → entries_of b.args ≡ []
          → TemporaryOutcome env result after
          → CallOutcome b
              (method_reply (returned (on_error result (λ e. fail e) λ c. ok (credential_json c))))
              after
      replied empty refused = failed refl
      replied empty (issued written) = handed_out _ named empty written

  method-Outcome :
      (b : MethodBody) (fn : MethodFunc env) (w : World env)
      → IsMethod b.method fn
      → Ends (λ result after. CallOutcome b (method_reply result) after) (fn b.args) w
  unfolding selftest_echo
  method-Outcome b fn w (echo named e) =
      subst (λ fn. Ends (λ result after. CallOutcome b (method_reply result) after) (fn b.args) w)
        (sym e) (Ends-pure _ (echoed named))
  method-Outcome b fn w (temporary named e) =
      subst (λ fn. Ends (λ result after. CallOutcome b (method_reply result) after) (fn b.args) w)
        (sym e) (call_temporary-Outcome b w named)

  call_method-Outcome :
      (b : MethodBody) (w : World env) → Ends (CallOutcome b) (call_method env (methods env) b) w
  unfolding call_method
  call_method-Outcome b w =
      Ends-if (b.method == "") _ _ (λ _. Ends-pure _ (failed refl))
        λ _.
          Ends-on_none (lookup b.method (methods env)) _ _ (λ _. Ends-pure _ (failed refl))
            λ fn found.
              Ends-bind (fn b.args) _
                (Ends-pure _ (method-Outcome b fn w (lookup-IsMethod b.method fn found)).at)

  -- A reply with status 0 needs the runtime's mark and a body that decodes.
  pub data HandlerOutcome (r : Request) (d : Decoded MethodBody) (w : World env)
      : Response → World env → Type 0 where
    rejected : {response : Response} → is_success response ≡ false → HandlerOutcome r d w response w
    called :
        {response : Response} {after : World env}
        → is_authenticated r ≡ true
        → d.err ≡ none
        → CallOutcome d.body response after
        → HandlerOutcome r d w response after

  -- Over the plugin's own methods, handleMethodCallInternal replies with status 0 only for a
  -- request that the runtime marked and whose body decodes: to AdminAccountSelftestEcho with the
  -- arguments, or null where there are none given, or to CreateTemporaryAdmin, called with no or
  -- empty arguments, with a credential that was written to the database; every other reply has
  -- another status, and a request that is not marked or whose body does not decode changes
  -- nothing.
  pub handle_method_call_internal-Outcome :
      (r : Request) (d : Decoded MethodBody) (w : World env)
      → HandlerOutcome r d w
          (handle_method_call_internal env (methods env) r d w).0
          (handle_method_call_internal env (methods env) r d w).1
  unfolding handle_method_call_internal
  handle_method_call_internal-Outcome r d w =
      let go : Ends (HandlerOutcome r d w) (handle_method_call_internal env (methods env) r d) w =
        (Ends-if (not (is_authenticated r)) _ _ (λ _. Ends-pure _ (rejected refl))
          λ marked.
            Ends-on_some d.err _ _ (λ e _. Ends-pure _ (rejected refl))
              λ decoded. record {
                at = called (not-false _ marked) decoded (call_method-Outcome d.body w).at;
              }) in
      go.at
