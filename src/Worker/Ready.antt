-- ===== src/Worker/Ready.antt =====
-- temporalio_trio/worker/_single_thread_worker.py: what the task of a workflow leaves for the
-- dispatcher that waits for its commands.
use python_trio_sdk.Common.{
  Bool, ◌&&◌, if◌then◌else◌, ◌≡◌, refl, [], true, false, some, List, inl, inr, Option-cases,
  Bool-cases, arith, is_some,
}
use python_trio_sdk.Host.{Host, Exception, is_exception, Result, ok, err}
use python_trio_sdk.Activation.{WorkflowStartedJob, WorkflowActivation, WorkflowJob}
use python_trio_sdk.Runtime.State.{WorkflowRuntime}
use python_trio_sdk.Runtime.New.{new_runtime}
use python_trio_sdk.Worker.Register.{Definition, find_definition, register_handlers}
use python_trio_sdk.Worker.State.{WorkflowState, take_activation, signal_commands_ready}
use python_trio_sdk.Worker.Code.{Code, Settings}
use python_trio_sdk.Worker.Apply.{
  apply_jobs, apply_queries, apply_updates, and_then, deferred_queries, deferred_updates,
}
use python_trio_sdk.Worker.Task.{
  signal_once, wait_and_signal, settled, fail_task, fail_nursery, leave_nursery, end_turn,
  nursery_cancelled, is_taken, run_deferred, first_activation, next_activation, run_workflow,
  resume_workflow, execute_workflow_main, started_job, identity_of,
}

module _ {h : Host} where
  -- `wait_for_commands` would return now, and not with an error.
  abbrev pub IsReady : WorkflowState h → Type 0
  IsReady state = (h.is_set state.commands_ready ≡ true) × (is_some state.runtime ≡ true)

  abbrev pub Readies : Result h.Object (WorkflowState h) → Type 0
  Readies (ok state) = IsReady state
  Readies (err _) = Unit {0}

module _ {h : Host} (code : Code h) where
  signal_once-IsReady :
      (rt : WorkflowRuntime h) (state : WorkflowState h) → IsReady (signal_once code rt state)
  unfolding signal_once signal_commands_ready
  signal_once-IsReady rt state = elim (Bool-cases (h.is_set state.commands_ready)) [
    | inl e ↦ rw (e, signal_once) (e, refl)
    | inr e ↦ rw (e, signal_once) (h.is_set-set state.commands_ready, refl)
  ]

  wait_and_signal-IsReady :
      (state : WorkflowState h) (rt : WorkflowRuntime h) → IsReady (wait_and_signal code state rt)
  unfolding wait_and_signal
  wait_and_signal-IsReady state rt =
      let ran = code.settle (record rt { on_suspend = false }) in
      let ended = settled code ran.0 state ran.1 in
      signal_once-IsReady (record ended.1 { on_suspend = rt.on_suspend }) ended.0

  fail_task-Readies :
      (e : Exception h.Object) (state : WorkflowState h) (rt : WorkflowRuntime h)
      → Readies (fail_task code e state rt)
  unfolding fail_task
  fail_task-Readies e state rt = elim (Bool-cases (is_exception e)) [
    | inl q ↦ rw (q, fail_task) (h.is_set-set state.commands_ready, refl)
    | inr q ↦ rw (q, fail_task) tt
  ]

  fail_nursery-Readies :
      (e : Exception h.Object) (state : WorkflowState h) (rt : WorkflowRuntime h)
      → Readies (fail_nursery code e state rt)
  unfolding fail_nursery
  fail_nursery-Readies e state rt = elim (Option-cases (code.cancel_tasks rt).0) [
    | inl q ↦ rw (q, fail_nursery) (fail_task-Readies (code.group e) state _)
    | inr (r, q) ↦
        rw (q, fail_nursery)
          (fail_task-Readies (code.group e)
            (execute_workflow_main code r state (code.cancel_tasks rt).1).0 _)
  ]

  leave_nursery-IsReady :
      (state : WorkflowState h) (rt : WorkflowRuntime h) → IsReady (leave_nursery code state rt)
  unfolding leave_nursery
  leave_nursery-IsReady state rt = elim (Option-cases (code.cancel_tasks rt).0) [
    | inl q ↦ rw (q, leave_nursery) (signal_once-IsReady _ state)
    | inr (r, q) ↦
        rw (q, leave_nursery)
          (signal_once-IsReady _ (execute_workflow_main code r state (code.cancel_tasks rt).1).0)
  ]

  left-Readies :
      (b : Bool) (r : Result h.Object (WorkflowState h)) (state : WorkflowState h)
      (rt : WorkflowRuntime h)
      → Readies r
      → Readies (if b then ok (leave_nursery code state rt) else r)
  left-Readies true r state rt ready = leave_nursery-IsReady state rt
  left-Readies false r state rt ready = ready

  end_turn-Readies :
      (r : Result h.Object (Unit {0})) (state : WorkflowState h) (rt : WorkflowRuntime h)
      → Readies (end_turn code r state rt)
  unfolding end_turn
  end_turn-Readies r state rt =
      left-Readies (nursery_cancelled rt && is_taken r) _ state rt (stays r)
    where
      stays :
          (r : Result h.Object (Unit {0}))
          → Readies (elim r [
            | ok _ ↦ ok (wait_and_signal code state rt)
            | err e ↦ fail_nursery code e state rt
          ])
      stays (ok _) = wait_and_signal-IsReady state rt
      stays (err e) = fail_nursery-Readies e state rt

  run_deferred-Readies :
      (jobs : List (WorkflowJob h.Object)) (state : WorkflowState h) (rt : WorkflowRuntime h)
      → Readies (run_deferred code jobs state rt)
  unfolding run_deferred
  run_deferred-Readies jobs state rt = end_turn-Readies ran.0 state ran.1
    where
      ran : Result h.Object (Unit {0}) × WorkflowRuntime h
      ran =
          and_then (apply_queries code.call (deferred_queries jobs) rt)
            (apply_updates code.call (deferred_updates jobs))

  first_activation-Readies :
      (activation : WorkflowActivation h.Object) (state : WorkflowState h) (rt : WorkflowRuntime h)
      → Readies (first_activation code activation state rt)
  unfolding first_activation
  first_activation-Readies activation state rt = go ran.0 refl
    where
      ran : Result h.Object (Unit {0}) × WorkflowRuntime h
      ran = apply_jobs code.call activation.timestamp_ns activation.jobs rt

      go :
          (r : Result h.Object (Unit {0}))
          → ran.0 ≡ r
          → Readies (first_activation code activation state rt)
      go (ok _) q =
          rw (q, first_activation)
            (run_deferred-Readies activation.jobs state
              (record ran.1 { nursery = some (record { cancel_called = false; tasks = [] }) }))
      go (err e) q = rw (q, first_activation) (fail_task-Readies e state ran.1)

  next_activation-Readies :
      (activation : WorkflowActivation h.Object) (state : WorkflowState h) (rt : WorkflowRuntime h)
      → Readies (next_activation code activation state rt)
  unfolding next_activation
  next_activation-Readies activation state rt = go ran.0 refl
    where
      ran : Result h.Object (Unit {0}) × WorkflowRuntime h
      ran =
          apply_jobs code.call activation.timestamp_ns activation.jobs (record rt {
            time_ns = activation.timestamp_ns;
            is_replaying = activation.is_replaying;
          })

      go :
          (r : Result h.Object (Unit {0}))
          → ran.0 ≡ r
          → Readies (next_activation code activation state rt)
      go (ok _) q = rw (q, next_activation) (run_deferred-Readies activation.jobs state ran.1)
      go (err e) q = rw (q, next_activation) (fail_nursery-Readies e state ran.1)

  -- Whatever the workflow's code does, when the task of a new run gives way to the dispatcher and does
  -- not end the worker, the dispatcher's wait returns, with the commands of the run.
  pub run_workflow-Readies :
      (settings : Settings) (activation : WorkflowActivation h.Object) (state : WorkflowState h)
      → Readies (run_workflow code settings activation state)
  unfolding run_workflow
  run_workflow-Readies settings activation state =
      elim (Option-cases (started_job activation.jobs)) [
        | inl q ↦ rw (q, run_workflow) tt
        | inr (job, q) ↦ elim (Option-cases (find_definition code.workflows job.workflow_type)) [
          | inl r ↦ rw (q, r, run_workflow) tt
          | inr (defn, r) ↦ rw (q, r, run_workflow) (constructed job (code.construct defn))
        ]
      ]
    where
      constructed :
          (job : WorkflowStartedJob h.Object) (r : Result h.Object (Definition h.Object))
          → Readies (elim r [
            | err e ↦ err e
            | ok bound ↦ first_activation code activation state (
                register_handlers bound (
                  new_runtime h
                    (identity_of settings state.run_id job)
                    activation.timestamp_ns
                    activation.is_replaying
                    true))
          ])
      constructed job (ok bound) = first_activation-Readies activation state _
      constructed job (err e) = tt

  -- The same where the task of a known run takes an activation from its mailbox.
  pub resume_workflow-Readies :
      (state : WorkflowState h)
      → is_some state.runtime ≡ true
      → Readies (resume_workflow code state)
  unfolding resume_workflow
  resume_workflow-Readies state known = elim (Option-cases state.runtime) [
    | inl q ↦ absurd (ground (arith, known, q))
    | inr (rt, q) ↦ rw (q, resume_workflow) (taken rt (take_activation state).0)
  ]
    where
      taken :
          (rt : WorkflowRuntime h) (r : Result h.Object (WorkflowActivation h.Object))
          → Readies (elim r [
            | ok activation ↦ next_activation code activation (take_activation state).1 rt
            | err e ↦ fail_nursery code e (take_activation state).1 rt
          ])
      taken rt (ok activation) = next_activation-Readies activation (take_activation state).1 rt
      taken rt (err e) = fail_nursery-Readies e (take_activation state).1 rt
