-- ===== src/Worker/Faults.antt =====
-- temporalio_trio/worker/_single_thread_worker.py: activations after which a workflow is in trouble.
use python_trio_sdk.Common.{
  ◌≡◌, refl, ap, ◌∙◌, true, some, [], ◌∷◌, ◌++◌, arith, ℕ, ℕ_eq, nat_eq_iff,
}
use mathlib.Core.List.{append_assoc}
use python_trio_sdk.Common.Dict
use python_trio_sdk.Common.Dict.{get-put}
use python_trio_sdk.Host.{Host, Exception, is_exception, ok, err, cancelled}
use python_trio_sdk.Activation.{
  WorkflowActivation, CancelExternalResolvedJob, SignalExternalResolvedJob,
  cancel_external_resolved, signal_external_resolved, cancel_workflow_execution, fail_workflow,
}
use python_trio_sdk.Runtime.State.{WorkflowRuntime, emit}
use python_trio_sdk.Runtime.Conditions.{notify_condition_waiters}
use python_trio_sdk.Runtime.Wakes.{get-wake}
use python_trio_sdk.Runtime.External.{apply_signal_external_resolved}
use python_trio_sdk.Worker.State.{
  WorkflowState, wait_for_commands, signal_commands_ready, mark_complete,
}
use python_trio_sdk.Worker.Code.{Code, Caller}
use python_trio_sdk.Worker.Task.{
  fail_nursery, fail_task, execute_workflow_main, main_commands, next_activation,
}
use python_trio_sdk.Worker.Apply.{apply_job, apply_jobs}

module _ {h : Host} (call : Caller h) where
  -- For a signal and a cancel request that wait under the same number: the job that resolves the signal
  -- sets the signal's event, but the job that resolves the cancel request leaves the whole runtime as
  -- it is, so that the coroutine that waits for the request is not resumed.
  pub cancel_is_never_resolved :
      (now : ℕ)
      → (signal : SignalExternalResolvedJob h.Object)
      → (cancel : CancelExternalResolvedJob h.Object) → (rt : WorkflowRuntime h) → (e : h.Event)
      → Dict.get rt.pending_external_signals signal.seq ≡ some e
      → (Dict.get
            (apply_job call now (signal_external_resolved signal) rt).1.pending_external_signals
            signal.seq
          ≡ some (h.set e))
        × (apply_jobs call now (cancel_external_resolved cancel ∷ []) rt ≡ (ok tt, rt))
  unfolding apply_job apply_jobs apply_signal_external_resolved
  cancel_is_never_resolved now signal cancel rt e p = (
    ground (
      arith,
      p,
      get-wake h signal.seq signal.seq rt.pending_external_signals,
      nat_eq_iff signal.seq signal.seq,
    ),
    refl,
  )

wait_for_commands-ready :
    {h : Host}
    → (state : WorkflowState h) (rt : WorkflowRuntime h) → h.is_set state.commands_ready ≡ true
    → state.runtime ≡ some rt
    → (wait_for_commands state).0 ≡ some (ok rt.commands)
unfolding wait_for_commands
wait_for_commands-ready state rt p q = rw (p, q, wait_for_commands) refl

module _ {h : Host} (code : Code h) where
  -- The state that such a task leaves.
  failed_state : WorkflowState h → Exception h.Object → WorkflowRuntime h → WorkflowState h
  unfolding signal_commands_ready mark_complete notify_condition_waiters main_commands
  failed_state state e stopped = signal_commands_ready (
      mark_complete (record (mark_complete state) {
        runtime = some (
            emit (fail_workflow e)
              (notify_condition_waiters (main_commands code (err cancelled) stopped)));
      }))

  next_activation-err :
      (activation : WorkflowActivation h.Object) (state : WorkflowState h)
      (rt rt' : WorkflowRuntime h)
      → (e : Exception h.Object)
      → apply_jobs code.call activation.timestamp_ns activation.jobs
          (record rt { time_ns = activation.timestamp_ns; is_replaying = activation.is_replaying })
        ≡ (err e, rt')
      → next_activation code activation state rt ≡ fail_nursery code e state rt'
  unfolding next_activation
  next_activation-err activation state rt rt' e p =
      rw (ap (λ r. r.0) p, next_activation) (ap (λ r. fail_nursery code e state r.1) p)

  fail_nursery-cancelled :
      (e : Exception h.Object) (state : WorkflowState h) (rt stopped : WorkflowRuntime h)
      → code.cancel_tasks rt ≡ (some (err cancelled), stopped)
      → is_exception (code.group e) ≡ true
      → fail_nursery code e state rt ≡ ok (failed_state state (code.group e) stopped)
  unfolding fail_nursery fail_task execute_workflow_main main_commands failed_state
  fail_nursery-cancelled e state rt stopped q x =
      rw (ap (λ r. r.0) q, x, fail_nursery, fail_task)
        (ap (λ r. ok (failed_state state (code.group e) r.1)) q)

  -- An activation that raises inside the nursery while the run method waits: the method is cancelled
  -- and the task fails, so that the dispatcher gets two commands that end the workflow.
  pub failed_activation_ends_workflow_twice :
      (activation : WorkflowActivation h.Object)
      → (state : WorkflowState h) → (rt rt' stopped : WorkflowRuntime h) → (e : Exception h.Object)
      → apply_jobs code.call activation.timestamp_ns activation.jobs
          (record rt { time_ns = activation.timestamp_ns; is_replaying = activation.is_replaying })
        ≡ (err e, rt')
      → code.cancel_tasks rt' ≡ (some (err cancelled), stopped)
      → is_exception (code.group e) ≡ true
      → (state' : WorkflowState h) × (next_activation code activation state rt ≡ ok state')
        × ((wait_for_commands state').0
            ≡ some (
                ok (
                  stopped.commands
                  ++ cancel_workflow_execution ∷ fail_workflow (code.group e) ∷ [])))
  unfolding failed_state
  failed_activation_ends_workflow_twice activation state rt rt' stopped e p q x = (
    failed_state state (code.group e) stopped,
    next_activation-err activation state rt rt' e p
        ∙ fail_nursery-cancelled e state rt' stopped q x,
    wait_for_commands-ready (failed_state state (code.group e) stopped) _
          (h.is_set-set state.commands_ready) refl
        ∙ ap (λ cs. some (ok cs))
            (append_assoc stopped.commands (cancel_workflow_execution ∷ [])
              (fail_workflow (code.group e) ∷ [])),
  )
