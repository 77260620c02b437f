-- ===== src/Worker/Task.antt =====
-- temporalio_trio/worker/_single_thread_worker.py: `_run_workflow` from one wait for an activation to
-- the next, with `_execute_workflow_main` and `_wait_and_signal`.
use python_trio_sdk.Common.{
  Bool, ◌&&◌, true, false, Option, none, some, String, concat, List, [], ◌∷◌, if◌then◌else◌,
  string_eq, ◌==◌,
}
use python_trio_sdk.Host.{
  Host, Exception, is_exception, Result, ok, err, runtime_error, cancelled, continue_as_new_error,
}
use python_trio_sdk.Activation.{
  WorkflowActivation, WorkflowJob, workflow_started, WorkflowStartedJob, complete_workflow,
  fail_workflow, cancel_workflow_execution,
}
use python_trio_sdk.Runtime.State.{WorkflowRuntime, Identity, emit}
use python_trio_sdk.Runtime.New.{new_runtime}
use python_trio_sdk.Runtime.Conditions.{notify_condition_waiters}
use python_trio_sdk.Worker.State.{
  WorkflowState, signal_commands_ready, mark_complete, take_activation,
}
use python_trio_sdk.Worker.Register.{find_definition, register_handlers}
use python_trio_sdk.Worker.Code.{Code, Settings}
use python_trio_sdk.Worker.Apply.{
  apply_jobs, apply_queries, apply_updates, and_then, deferred_queries, deferred_updates,
}

-- The loop that looks for the first WorkflowStartedJob.
unfoldable pub started_job :
    {Object : Type 0} → List (WorkflowJob Object) → Option (WorkflowStartedJob Object)
started_job [] = none
started_job (workflow_started job ∷ jobs) = some job
started_job (_ ∷ jobs) = started_job jobs

-- The arguments of `WorkflowRuntime(...)`; an empty workflow id counts as missing.
unfoldable pub identity_of :
    {Object : Type 0} → Settings → String → WorkflowStartedJob Object → Identity Object
identity_of settings run_id job = record {
  run_id = run_id;
  workflow_id = if job.workflow_id == "" then run_id else job.workflow_id;
  workflow_type = job.workflow_type;
  task_queue = settings.task_queue;
  namespace = job.namespace;
  attempt = job.attempt;
  start_time_ns = job.start_time_ns;
  execution_timeout_ms = job.execution_timeout_ms;
  run_timeout_ms = job.run_timeout_ms;
  task_timeout_ms = job.task_timeout_ms;
  retry_policy_obj = job.retry_policy;
  continued_run_id = job.continued_run_id;
  cron_schedule = job.cron_schedule;
  parent_namespace = job.parent_namespace;
  parent_workflow_id = job.parent_workflow_id;
  parent_run_id = job.parent_run_id;
  root_workflow_id = job.root_workflow_id;
  root_run_id = job.root_run_id;
  headers = job.headers;
  raw_memo = job.raw_memo;
  priority = job.priority;
  first_execution_run_id = job.first_execution_run_id;
  search_attributes_data = job.search_attributes;
  typed_search_attributes_data = job.typed_search_attributes;
  workflow_start_time_ns = job.workflow_start_time_ns;
  disable_eager_activity_execution = settings.disable_eager_activity_execution;
}

-- The body of the nursery raises nothing but what a cancelled scope takes.
unfoldable pub is_taken : {Object A : Type 0} → Result Object A → Bool
is_taken (ok _) = true
is_taken (err cancelled) = true
is_taken (err _) = false

-- `cancel_called` of the nursery's cancel scope
unfoldable pub nursery_cancelled : {h : Host} → WorkflowRuntime h → Bool
nursery_cancelled rt = elim rt.nursery [ none ↦ false | some nursery ↦ nursery.cancel_called ]

module _ {h : Host} (code : Code h) where
  -- `_execute_workflow_main` behind its `await`: the `except` branches and the `finally` block.
  unfoldable pub main_commands : Result h.Object h.Object → WorkflowRuntime h → WorkflowRuntime h
  main_commands (ok result) rt = emit (complete_workflow result) rt
  main_commands (err cancelled) rt = emit cancel_workflow_execution rt
  main_commands (err (continue_as_new_error e)) rt = code.apply_command e rt
  main_commands (err e) rt = emit (fail_workflow e) rt

  unfoldable pub keep_result : Result h.Object h.Object → WorkflowState h → WorkflowState h
  keep_result (ok result) state = record state { completion_result = result }
  keep_result (err _) state = state

  unfoldable pub execute_workflow_main :
      Result h.Object h.Object
      → WorkflowState h
      → WorkflowRuntime h
      → WorkflowState h × WorkflowRuntime h
  unfolding main_commands keep_result notify_condition_waiters mark_complete
  execute_workflow_main result state rt =
      (mark_complete (keep_result result state), notify_condition_waiters (main_commands result rt))

  -- What the tasks did while `_wait_and_signal` waited, `on_suspend` being None.
  unfoldable pub settled :
      Option (Result h.Object h.Object)
      → WorkflowState h
      → WorkflowRuntime h
      → WorkflowState h × WorkflowRuntime h
  unfolding execute_workflow_main
  settled none state rt = (state, rt)
  settled (some result) state rt =
      let ended = execute_workflow_main result state rt in (ended.0, code.settle_others ended.1)

  -- `if not commands_ready.is_set(): signal_commands_ready()`, and the runtime that the state refers to
  unfoldable pub signal_once : WorkflowRuntime h → WorkflowState h → WorkflowState h
  unfolding signal_commands_ready
  signal_once rt state =
      let state' = record state { runtime = some rt } in
      if h.is_set state.commands_ready then state' else signal_commands_ready state'

  unfoldable pub wait_and_signal : WorkflowState h → WorkflowRuntime h → WorkflowState h
  unfolding settled signal_once
  wait_and_signal state rt =
      let ran = code.settle (record rt { on_suspend = false }) in
      let ended = settled ran.0 state ran.1 in
      signal_once (record ended.1 { on_suspend = rt.on_suspend }) ended.0

  -- `except Exception as e` of `_run_workflow`
  unfoldable pub fail_task :
      Exception h.Object → WorkflowState h → WorkflowRuntime h → Result h.Object (WorkflowState h)
  unfolding mark_complete signal_commands_ready
  fail_task e state rt =
      if is_exception e
      then ok (
          signal_commands_ready
            (mark_complete (record state { runtime = some (emit (fail_workflow e) rt) })))
      else err e

  -- An exception in the body of the nursery cancels its tasks first.
  unfoldable pub fail_nursery :
      Exception h.Object → WorkflowState h → WorkflowRuntime h → Result h.Object (WorkflowState h)
  unfolding fail_task execute_workflow_main
  fail_nursery e state rt =
      let ran = code.cancel_tasks rt in
      elim ran.0 [
        | none ↦ fail_task (code.group e) state ran.1
        | some result ↦
            let ended = execute_workflow_main result state ran.1 in
            fail_task (code.group e) ended.0 ended.1
      ]

  -- The end of a nursery whose cancel scope is cancelled: the wait in its body raises trio.Cancelled,
  -- the tasks run to their end, the scope takes the exceptions, and the code behind the nursery signals.
  unfoldable pub leave_nursery : WorkflowState h → WorkflowRuntime h → WorkflowState h
  unfolding execute_workflow_main signal_once
  leave_nursery state rt =
      let ran = code.cancel_tasks rt in
      elim ran.0 [
        | none ↦ signal_once ran.1 state
        | some result ↦
            let ended = execute_workflow_main result state ran.1 in signal_once ended.1 ended.0
      ]

  unfoldable pub end_turn :
      Result h.Object (Unit {0})
      → WorkflowState h
      → WorkflowRuntime h
      → Result h.Object (WorkflowState h)
  unfolding wait_and_signal leave_nursery fail_nursery
  end_turn r state rt =
      if nursery_cancelled rt && is_taken r
      then ok (leave_nursery state rt)
      else elim r [ ok _ ↦ ok (wait_and_signal state rt) | err e ↦ fail_nursery e state rt ]

  -- The deferred queries and updates, and then the wait.
  unfoldable pub run_deferred :
      List (WorkflowJob h.Object)
      → WorkflowState h
      → WorkflowRuntime h
      → Result h.Object (WorkflowState h)
  unfolding apply_queries apply_updates and_then deferred_queries deferred_updates end_turn
  run_deferred jobs state rt =
      let ran =
        and_then (apply_queries code.call (deferred_queries jobs) rt)
          (apply_updates code.call (deferred_updates jobs)) in
      end_turn ran.0 state ran.1

  -- The initial activation, whose jobs are applied before the nursery is opened.
  unfoldable pub first_activation :
      WorkflowActivation h.Object
      → WorkflowState h
      → WorkflowRuntime h
      → Result h.Object (WorkflowState h)
  unfolding apply_jobs run_deferred fail_task
  first_activation activation state rt =
      let ran = apply_jobs code.call activation.timestamp_ns activation.jobs rt in
      elim ran.0 [
        | ok _ ↦
            run_deferred activation.jobs state
              (record ran.1 { nursery = some (record { cancel_called = false; tasks = [] }) })
        | err e ↦ fail_task e state ran.1
      ]

  -- A turn of the loop, once an activation is there.
  unfoldable pub next_activation :
      WorkflowActivation h.Object
      → WorkflowState h
      → WorkflowRuntime h
      → Result h.Object (WorkflowState h)
  unfolding apply_jobs run_deferred fail_nursery
  next_activation activation state rt =
      let ran =
        apply_jobs code.call activation.timestamp_ns activation.jobs (record rt {
          time_ns = activation.timestamp_ns;
          is_replaying = activation.is_replaying;
        }) in
      elim ran.0 [
        | ok _ ↦ run_deferred activation.jobs state ran.1
        | err e ↦ fail_nursery e state ran.1
      ]

  -- `_run_workflow` up to the first wait for an activation
  unfoldable pub run_workflow :
      Settings → WorkflowActivation h.Object → WorkflowState h → Result h.Object (WorkflowState h)
  unfolding started_job identity_of find_definition register_handlers new_runtime first_activation
  run_workflow settings activation state = elim (started_job activation.jobs) [
    | none ↦ err (runtime_error "Initial activation missing WorkflowStartedJob")
    | some job ↦ elim (find_definition code.workflows job.workflow_type) [
      | none ↦ err (runtime_error (concat "Unknown workflow type: " job.workflow_type))
      | some defn ↦ elim (code.construct defn) [
        | err e ↦ err e
        | ok bound ↦ first_activation activation state (
            register_handlers bound (
              new_runtime h (identity_of settings state.run_id job) activation.timestamp_ns
                activation.is_replaying true))
      ]
    ]
  ]

  -- the task behind `await state.wait_for_activation()`
  unfoldable pub resume_workflow : WorkflowState h → Result h.Object (WorkflowState h)
  unfolding take_activation next_activation fail_nursery
  resume_workflow state =
      let taken = take_activation state in
      elim state.runtime [
        | none ↦ ok state
        | some rt ↦ elim taken.0 [
          | ok activation ↦ next_activation activation taken.1 rt
          | err e ↦ fail_nursery e taken.1 rt
        ]
      ]
