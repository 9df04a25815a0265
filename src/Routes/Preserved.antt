-- ===== src/Routes/Preserved.antt =====
-- A self-test over the plugin's own routes, where the plugin has no database.
use mathlib.Core.List.{Memᴰ}
use mathlib.Core.Option.{none-ne-some, some-injective}
use omps_admin_plugin_accoun.Prelude.{
  String, ◌≡◌, sym, subst, Option, none, some, [], ◌∷◌, All, if_cases, ◌==◌,
}
use omps_admin_plugin_accoun.Prelude.Dict.{Dict, lookup}
use omps_admin_plugin_accoun.Account.{AccountRecord}
use omps_admin_plugin_accoun.Json.{Json}
use omps_admin_plugin_accoun.Platform.{Request, Decoded, Env, World}
use omps_admin_plugin_accoun.Platform.Keeps.{
  Keeps, OnAccounts, keeps_rules, Keeps-bind, Keeps-pure, Keeps-if, Keeps-on_some, Keeps-on_found,
}
use omps_admin_plugin_accoun.Tokens.{random_hex}
use omps_admin_plugin_accoun.Temporary.{write_temporary_admin, create_temporary_admin}
use omps_admin_plugin_accoun.Storage.Created.{RangesAll}
use omps_admin_plugin_accoun.Handlers.Invariants.{
  IsWellFormed, handle_account_create-IsWellFormed, handle_account_update-IsWellFormed,
  handle_reset_password-IsWellFormed, handle_account_delete-IsWellFormed,
}
use omps_admin_plugin_accoun.Handlers.ReadOnly.{
  handle_login-Keeps, handle_validate_password-Keeps, handle_check_permission-Keeps,
  handle_me-Keeps, handle_account_list-Keeps, handle_account_detail-Keeps,
}
use omps_admin_plugin_accoun.Push.{handle_hello, handle_admin_ping}
use omps_admin_plugin_accoun.Internal.MethodCall.{
  MethodBody, MethodFunc, selftest_echo, call_create_temporary_admin, methods, call_method,
  handle_method_call_internal,
}
use omps_admin_plugin_accoun.Internal.ScheduledTrigger.{
  TaskBody, TaskEnd, finished, task_failed, task_panicked, ScheduledTaskFunc, selftest_task,
  scheduled_tasks, last_line, run_task, handle_scheduled_trigger_internal,
}
use omps_admin_plugin_accoun.Selftest.Harness.{Handler, Harness}
use omps_admin_plugin_accoun.Selftest.RouteLookup.{RangesRoutes}
use omps_admin_plugin_accoun.Selftest.Preserved.{HandlerKeeps, handle_selftest_internal-Keeps}
use omps_admin_plugin_accoun.Selftest.Endpoint.{handle_selftest_internal}
use omps_admin_plugin_accoun.Routes.{Decoders, routes}

-- What holds of every entry holds of what a look-up finds.
All-lookup {ι} :
    {V : Type 0} (P : V → Type ι) (m : Dict V) (key : String) (v : V)
    → All (λ entry. P entry.1) m
    → lookup key m ≡ some v
    → P v
unfolding lookup
All-lookup P [] key v all h = elim (none-ne-some v h) [ ]
All-lookup P ((name, u) ∷ m) key v (here, others) h =
    if_cases (λ o. o ≡ some v → P v) (name == key) (some u) (lookup key m)
      (λ _ e. subst P (some-injective u v e) here) (λ _ e. All-lookup P m key v others e) h

All-Mem {ι} :
    {V : Type 0} (P : V → Type ι) (m : Dict V) (name : String) (v : V)
    → All (λ entry. P entry.1) m
    → Memᴰ (name, v) m
    → P v
All-Mem P [] name v all member = elim member [ ]
All-Mem P (_ ∷ m) name v (here, others) (Memᴰ.head e) = subst (λ entry. P entry.1) (sym e) here
All-Mem P (_ ∷ m) name v (here, others) (Memᴰ.tail member) = All-Mem P m name v others member

module _ {ι} (env : Env) (R : Dict AccountRecord → Type ι) where
  random_hex-Keeps : (n : _) → Keeps (OnAccounts R) (random_hex env n)
  unfolding random_hex
  random_hex-Keeps n = search keeps_rules

  create_temporary_admin-Keeps : Keeps (OnAccounts R) (create_temporary_admin env)
  unfolding create_temporary_admin write_temporary_admin
  create_temporary_admin-Keeps = search (keeps_rules, random_hex-Keeps) depth 20

  methods-Keeps :
      (name : String) (fn : MethodFunc env)
      → lookup name (methods env) ≡ some fn
      → (args : Option (Dict Json)) → Keeps (OnAccounts R) (fn args)
  unfolding selftest_echo call_create_temporary_admin
  methods-Keeps name fn h args =
      All-lookup (λ fn. Keeps (OnAccounts R) (fn args)) (methods env) name fn
        (search keeps_rules, (search (keeps_rules, create_temporary_admin-Keeps) depth 12, tt)) h

  call_method-Keeps : (b : MethodBody) → Keeps (OnAccounts R) (call_method env (methods env) b)
  unfolding call_method
  call_method-Keeps b = Keeps-if (b.method == "") _ _ (Keeps-pure _) (
      Keeps-on_found (lookup b.method (methods env)) _ _ (Keeps-pure _) λ fn found.
        Keeps-bind (fn b.args) _ (methods-Keeps b.method fn found b.args) λ result. Keeps-pure _)

  handle_method_call_internal-Keeps :
      (r : Request) (d : Decoded MethodBody)
      → Keeps (OnAccounts R) (handle_method_call_internal env (methods env) r d)
  unfolding handle_method_call_internal
  handle_method_call_internal-Keeps r d = search (keeps_rules, call_method-Keeps)

  last_line-Keeps :
      (e : TaskEnd) (started_at : _) → Keeps (OnAccounts R) (last_line env e started_at)
  unfolding last_line
  last_line-Keeps finished started_at = search keeps_rules
  last_line-Keeps (task_failed e) started_at = search keeps_rules
  last_line-Keeps (task_panicked text) started_at = search keeps_rules

  run_task-Keeps :
      (name : String) (task : ScheduledTaskFunc env)
      → Keeps (OnAccounts R) task
      → Keeps (OnAccounts R) (run_task env name task)
  unfolding run_task
  run_task-Keeps name task k = search (keeps_rules, last_line-Keeps) depth 12

  scheduled_tasks-Keeps :
      (name : String) (task : ScheduledTaskFunc env)
      → lookup name (scheduled_tasks env) ≡ some task
      → Keeps (OnAccounts R) (run_task env name task)
  unfolding selftest_task
  scheduled_tasks-Keeps name task found = run_task-Keeps name task (
      All-lookup (Keeps (OnAccounts R)) (scheduled_tasks env) name task (search keeps_rules, tt)
        found)

  handle_scheduled_trigger_internal-Keeps :
      (r : Request) (d : Decoded TaskBody)
      → Keeps (OnAccounts R) (handle_scheduled_trigger_internal env (scheduled_tasks env) r d)
  unfolding handle_scheduled_trigger_internal
  handle_scheduled_trigger_internal-Keeps r d =
      search (Keeps-pure, Keeps-if, Keeps-on_some, Keeps-on_found, scheduled_tasks-Keeps) depth 14

  handle_hello-Keeps : (version : String) → Keeps (OnAccounts R) (handle_hello env version)
  unfolding handle_hello
  handle_hello-Keeps version = search keeps_rules

  handle_admin_ping-Keeps : Keeps (OnAccounts R) (handle_admin_ping env)
  unfolding handle_admin_ping
  handle_admin_ping-Keeps = search keeps_rules

module _ (env : Env) (memory : env.db ≡ none) (ranges : RangesAll env) where
  routes-HandlerKeeps :
      (json : Decoders) (version : String) (selftest : Handler env)
      → HandlerKeeps env IsWellFormed selftest
      → All (λ route. HandlerKeeps env IsWellFormed route.1) (routes env json version selftest)
  routes-HandlerKeeps json version selftest kept = (
    record { kept = λ r body. handle_login-Keeps env IsWellFormed r (json.credentials body) },
    (
      record { kept = λ r body. handle_me-Keeps env IsWellFormed r },
      (
        record {
          kept =
              λ r body. handle_validate_password-Keeps env IsWellFormed r (json.credentials body);
        },
        (
          record {
            kept = λ r body. record {
              at = handle_account_create-IsWellFormed env memory ranges r (json.create body);
            };
          },
          (
            record { kept = λ r body. handle_account_list-Keeps env IsWellFormed r },
            (
              record { kept = λ r body. handle_account_detail-Keeps env IsWellFormed r },
              (
                record {
                  kept = λ r body. record {
                    at = handle_account_update-IsWellFormed env memory r (json.update body);
                  };
                },
                (
                  record {
                    kept = λ r body. record {
                      at = handle_reset_password-IsWellFormed env memory r (json.reset body);
                    };
                  },
                  (
                    record {
                      kept = λ r body. record {
                        at = handle_account_delete-IsWellFormed env memory r (json.delete body);
                      };
                    },
                    (
                      record {
                        kept = λ r body.
                            handle_check_permission-Keeps env IsWellFormed r (json.permission body);
                      },
                      (
                        record { kept = λ r body. handle_hello-Keeps env IsWellFormed version },
                        (
                          record { kept = λ r body. handle_admin_ping-Keeps env IsWellFormed },
                          (
                            record {
                              kept = λ r body.
                                  handle_method_call_internal-Keeps env IsWellFormed r
                                    (json.method body);
                            },
                            (
                              record {
                                kept = λ r body.
                                    handle_scheduled_trigger_internal-Keeps env IsWellFormed r
                                      (json.task body);
                              },
                              (kept, tt),
                            ),
                          ),
                        ),
                      ),
                    ),
                  ),
                ),
              ),
            ),
          ),
        ),
      ),
    ),
  )

  -- Without a database, and if ranging over a map comes by every account and by routes alone, a
  -- self-test over the plugin's own routes, whatever its cases ask, keeps the accounts well
  -- formed, as long as the endpoint of the self-test within it does.
  pub handle_selftest_internal-IsWellFormed :
      (h : Harness env) (json : Decoders) (version : String) (selftest : Handler env) (r : Request)
      (w : World env)
      → RangesRoutes h
      → HandlerKeeps env IsWellFormed selftest
      → IsWellFormed w.accounts
      → IsWellFormed (handle_selftest_internal h (routes env json version selftest) r w).1.accounts
  handle_selftest_internal-IsWellFormed h json version selftest r w shuffles kept wf =
      let table = routes env json version selftest in
      (handle_selftest_internal-Keeps env IsWellFormed h table shuffles
          (λ name f member.
            All-Mem (HandlerKeeps env IsWellFormed) table name f
              (routes-HandlerKeeps json version selftest kept) member)
          r).at
        w wf
