-- ===== src/Runtime/Children/Result.antt =====
-- temporalio_trio/worker/_runtime.py: the end of a child workflow, for those that wait and for the
-- jobs that report it.
use python_trio_sdk.Common.{ℕ, String, none, some, if◌then◌else◌, or_else, nat_eq, ℕ_eq}
use python_trio_sdk.Common.Dict
use python_trio_sdk.Host.{
  Host, Exception, Result, ok, err, cancelled, key_error, runtime_error,
  workflow_already_started_error, raised, workflow_context,
}
use python_trio_sdk.Activation.{
  Command, StartFailedCause, number, text, ChildWorkflowStartFailedJob, ChildWorkflowResolvedJob,
}
use python_trio_sdk.Runtime.State.{
  WorkflowRuntime, Outcome, value, error, raise_or_return, child, Await, done, blocked, Wake,
  event_set, scope_cancelled, emit, notify_suspend, wake,
}

-- the exception of a start that failed
unfoldable pub start_error :
    (h : Host) → StartFailedCause h.Object → String → String → Exception h.Object
start_error h (number n) id type =
    if nat_eq n h.already_exists
    then workflow_already_started_error id type
    else runtime_error "Unknown child start fail cause"
start_error h (text t) id type = runtime_error "Unknown child start fail cause"

module _ {h : Host} where
  unfoldable pub workflow_wait_child_workflow :
      ℕ → WorkflowRuntime h → Await h.Object (Outcome h.Object) × WorkflowRuntime h
  workflow_wait_child_workflow seq rt = elim (Dict.get rt.completed_children seq) [
    | some result ↦ (done (raise_or_return result), rt)
    | none ↦
        if Dict.has rt.pending_children seq
        then (blocked (child seq), notify_suspend rt)
        else (done (err (runtime_error "Child workflow is not pending")), rt)
  ]

  -- behind `await event.wait()`
  unfoldable pub resume_child :
      ℕ → Wake → WorkflowRuntime h → Result h.Object (Outcome h.Object) × WorkflowRuntime h
  resume_child seq scope_cancelled rt = (err cancelled, emit (Command.cancel_child_workflow seq) rt)
  resume_child seq event_set rt =
      let rt' = record rt { pending_children = Dict.remove rt.pending_children seq } in
      elim (Dict.get rt.completed_children seq) [
        | none ↦ (err (key_error seq), rt)
        | some result ↦
            if Dict.has rt.pending_children seq
            then (raise_or_return result, rt')
            else (err (key_error seq), rt)
      ]

  unfoldable pub apply_child_workflow_started : ℕ → String → WorkflowRuntime h → WorkflowRuntime h
  apply_child_workflow_started seq run_id rt = record rt {
    started_children = Dict.put rt.started_children seq run_id;
    pending_child_starts = wake h seq rt.pending_child_starts;
  }

  unfoldable pub apply_child_workflow_start_failed :
      ChildWorkflowStartFailedJob h.Object → WorkflowRuntime h → WorkflowRuntime h
  apply_child_workflow_start_failed job rt = record rt {
    completed_children =
        Dict.put rt.completed_children job.seq
          (error (start_error h job.cause job.workflow_id job.workflow_type));
    pending_child_starts = wake h job.seq rt.pending_child_starts;
    pending_children = wake h job.seq rt.pending_children;
  }

  unfoldable pub apply_child_workflow_resolved :
      ℕ → Outcome h.Object → WorkflowRuntime h → WorkflowRuntime h
  apply_child_workflow_resolved seq outcome rt = record rt {
    completed_children = Dict.put rt.completed_children seq outcome;
    pending_children = wake h seq rt.pending_children;
  }

  -- The branch of `SingleThreadWorker._apply_activation` that decodes the job first.
  unfoldable pub child_outcome :
      ChildWorkflowResolvedJob h.Object → WorkflowRuntime h → Result h.Object (Outcome h.Object)
  child_outcome job rt =
      let context =
        workflow_context rt.namespace
          (or_else (Dict.get rt.child_workflow_ids job.seq) rt.workflow_id) in
      elim job.result_payload [
        | some payload ↦
            elim (h.from_payload context payload
              (or_else (Dict.get rt.child_workflow_ret_types job.seq) none)) [
                | ok v ↦ ok (value v)
                | err e ↦ err e
              ]
        | none ↦ elim job.failure_proto [
          | none ↦ ok (value h.none_object)
          | some proto ↦ elim (h.from_failure context proto) [
            | ok e ↦ ok (error (raised e))
            | err e ↦ err e
          ]
        ]
      ]
