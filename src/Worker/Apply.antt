-- ===== src/Worker/Apply.antt =====
-- temporalio_trio/worker/_single_thread_worker.py: `_apply_activation`, and the deferred queries and
-- updates that `_run_workflow` runs behind it.
use python_trio_sdk.Common.{List, [], ◌∷◌, ℕ}
use python_trio_sdk.Host.{Host, Result, ok, err}
use python_trio_sdk.Activation.{
  WorkflowJob, workflow_started, timer_fired, cancel_workflow, signal_workflow, query_workflow,
  update_workflow, notify_has_patch, activity_resolved, child_workflow_started,
  child_workflow_start_failed, child_workflow_resolved, signal_external_resolved,
  cancel_external_resolved, UpdateWorkflowJob, QueryWorkflowJob,
}
use python_trio_sdk.Runtime.State.{WorkflowRuntime, Outcome}
use python_trio_sdk.Runtime.Timers.{apply_timer_fired}
use python_trio_sdk.Runtime.Activities.Resolve.{apply_activity_resolved}
use python_trio_sdk.Runtime.Children.Result.{
  apply_child_workflow_started, apply_child_workflow_start_failed, apply_child_workflow_resolved,
  child_outcome,
}
use python_trio_sdk.Runtime.External.{apply_signal_external_resolved}
use python_trio_sdk.Runtime.Patches.{apply_notify_has_patch}
use python_trio_sdk.Runtime.Conditions.{apply_cancel_workflow}
use python_trio_sdk.Worker.Code.{Caller}
use python_trio_sdk.Worker.Signals.{apply_signal}
use python_trio_sdk.Worker.Queries.{apply_query_async}
use python_trio_sdk.Worker.Updates.{apply_update_async}

module _ {h : Host} where
  -- What a step that may raise is followed by.
  unfoldable pub and_then :
      Result h.Object (Unit {0}) × WorkflowRuntime h
      → (WorkflowRuntime h → Result h.Object (Unit {0}) × WorkflowRuntime h)
      → Result h.Object (Unit {0}) × WorkflowRuntime h
  and_then (ok _, rt) next = next rt
  and_then (err e, rt) next = (err e, rt)

-- the jobs that `_run_workflow` has the function put aside
unfoldable pub deferred_queries :
    {Object : Type 0} → List (WorkflowJob Object) → List (QueryWorkflowJob Object)
deferred_queries [] = []
deferred_queries (query_workflow job ∷ jobs) = job ∷ deferred_queries jobs
deferred_queries (_ ∷ jobs) = deferred_queries jobs

unfoldable pub deferred_updates :
    {Object : Type 0} → List (WorkflowJob Object) → List (UpdateWorkflowJob Object)
deferred_updates [] = []
deferred_updates (update_workflow job ∷ jobs) = job ∷ deferred_updates jobs
deferred_updates (_ ∷ jobs) = deferred_updates jobs

module _ {h : Host} (call : Caller h) where
  unfoldable pub apply_child :
      ℕ
      → Result h.Object (Outcome h.Object)
      → WorkflowRuntime h
      → Result h.Object (Unit {0}) × WorkflowRuntime h
  unfolding apply_child_workflow_resolved
  apply_child seq (ok outcome) rt = (ok tt, apply_child_workflow_resolved seq outcome rt)
  apply_child seq (err e) rt = (err e, rt)

  -- One turn of the loop. The source's chain of isinstance has no branch for cancel_external_resolved.
  unfoldable pub apply_job :
      (timestamp_ns : ℕ)
      → WorkflowJob h.Object
      → WorkflowRuntime h
      → Result h.Object (Unit {0}) × WorkflowRuntime h
  unfolding apply_child apply_timer_fired apply_activity_resolved child_outcome apply_signal
      apply_signal_external_resolved apply_child_workflow_started apply_child_workflow_start_failed
      apply_cancel_workflow apply_notify_has_patch
  apply_job now (timer_fired timer_id) rt = (ok tt, apply_timer_fired timer_id now rt)
  apply_job now (activity_resolved job) rt = apply_activity_resolved job rt
  apply_job now (signal_workflow job) rt = apply_signal call job rt
  apply_job now (query_workflow _) rt = (ok tt, rt)
  apply_job now (child_workflow_started seq run_id) rt =
      (ok tt, apply_child_workflow_started seq run_id rt)
  apply_job now (child_workflow_start_failed job) rt =
      (ok tt, apply_child_workflow_start_failed job rt)
  apply_job now (child_workflow_resolved job) rt = apply_child job.seq (child_outcome job rt) rt
  apply_job now (signal_external_resolved job) rt =
      (ok tt, apply_signal_external_resolved job.seq job.failure rt)
  apply_job now (update_workflow _) rt = (ok tt, rt)
  apply_job now (cancel_workflow _) rt = (ok tt, apply_cancel_workflow rt)
  apply_job now (notify_has_patch patch_id) rt = (ok tt, apply_notify_has_patch patch_id rt)
  apply_job now (workflow_started _) rt = (ok tt, rt)
  apply_job now (cancel_external_resolved _) rt = (ok tt, rt)

  unfoldable pub apply_jobs :
      (timestamp_ns : ℕ)
      → List (WorkflowJob h.Object)
      → WorkflowRuntime h
      → Result h.Object (Unit {0}) × WorkflowRuntime h
  unfolding apply_job and_then
  apply_jobs now [] rt = (ok tt, rt)
  apply_jobs now (job ∷ jobs) rt = and_then (apply_job now job rt) (apply_jobs now jobs)

  unfoldable pub apply_queries :
      List (QueryWorkflowJob h.Object)
      → WorkflowRuntime h
      → Result h.Object (Unit {0}) × WorkflowRuntime h
  unfolding apply_query_async and_then
  apply_queries [] rt = (ok tt, rt)
  apply_queries (job ∷ jobs) rt = and_then (apply_query_async call job rt) (apply_queries jobs)

  unfoldable pub apply_updates :
      List (UpdateWorkflowJob h.Object)
      → WorkflowRuntime h
      → Result h.Object (Unit {0}) × WorkflowRuntime h
  unfolding apply_update_async and_then
  apply_updates [] rt = (ok tt, rt)
  apply_updates (job ∷ jobs) rt = and_then (apply_update_async call job rt) (apply_updates jobs)
