-- ===== src/Internal/ScheduledTrigger.antt =====
-- scheduled_trigger.go
use mathlib.Core.Bool.{not}
use omps_admin_plugin_accoun.Prelude.{String, ◌<>◌, List, [], ◌∷◌, ◌++◌, ◌==◌, if◌then◌else◌}
use omps_admin_plugin_accoun.Prelude.Int.{ℤ, ◌-ℤ◌}
use omps_admin_plugin_accoun.Prelude.Dict.{Dict, lookup}
use omps_admin_plugin_accoun.Prelude.Exec.{Exec, pure, ◌>>=◌, on_none, on_some}
use omps_admin_plugin_accoun.Account.{Error, message}
use omps_admin_plugin_accoun.Json.{Response, http_error, events}
use omps_admin_plugin_accoun.Platform.{Request, Decoded, Env, World, call}
use omps_admin_plugin_accoun.Internal.{is_authenticated}

-- How a task ended.
pub data TaskEnd : Type 0 where
  finished : TaskEnd
  task_failed : Error → TaskEnd
  task_panicked : String → TaskEnd

-- `ScheduledTaskFunc`: the lines that it emits, in order, and how it ends.
abbrev pub ScheduledTaskFunc : Env → Type 0
ScheduledTaskFunc env = Exec (World env) (List String × TaskEnd)

pub record TaskBody : Type 0 where
  pub task_name : String

module _ (env : Env) where
  unfoldable pub selftest_task : ScheduledTaskFunc env
  selftest_task = pure ("admin_account selftest task executed" ∷ [], finished)

  -- `ScheduledTasks`, once `init` has run.
  abbrev pub scheduled_tasks : Dict (ScheduledTaskFunc env)
  scheduled_tasks = ("admin_account_selftest_task", selftest_task) ∷ []

  -- The last line of the stream; `elapsed` is a duration. A panic skips the clock.
  unfoldable pub last_line : TaskEnd → ℤ → Exec (World env) String
  last_line (task_panicked text) started_at = pure ("[ERROR] panic: " <> text)
  last_line (task_failed e) started_at = do
    ended_at ← call env.now
    now ← call env.now
    pure (
        "["
        <> env.format_time now
        <> "] 任务失败: "
        <> message e
        <> "（耗时 "
        <> env.format_duration (ended_at -ℤ started_at)
        <> "）")
  last_line finished started_at = do
    ended_at ← call env.now
    now ← call env.now
    pure (
        "["
        <> env.format_time now
        <> "] 任务完成（耗时 "
        <> env.format_duration (ended_at -ℤ started_at)
        <> "）")

  abbrev pub first_line : String → ℤ → String
  first_line name now = "[" <> env.format_time now <> "] 任务 " <> name <> " 开始执行"

  -- From the first event on. An event is written `data: <line>` and a blank line.
  unfoldable pub run_task : String → ScheduledTaskFunc env → Exec (World env) Response
  run_task name task = do
    now ← call env.now
    started_at ← call env.now
    outcome ← task
    last ← last_line outcome.1 started_at
    pure (events (first_line name now ∷ outcome.0 ++ (last ∷ [])))

  unfoldable pub handle_scheduled_trigger_internal :
      Dict (ScheduledTaskFunc env) → Request → Decoded TaskBody → Exec (World env) Response
  handle_scheduled_trigger_internal table r d =
      if not (is_authenticated r)
      then pure (http_error 401 "unauthorized")
      else on_some d.err (λ e. pure (http_error 400 ("请求体解析失败: " <> message e)))
          (if d.body.task_name == ""
            then pure (http_error 400 "task_name 不能为空")
            else on_none (lookup d.body.task_name table)
                (pure (http_error 404 ("未注册的定时任务: " <> d.body.task_name)))
                λ task. run_task d.body.task_name task)
