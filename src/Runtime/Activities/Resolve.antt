-- ===== src/Runtime/Activities/Resolve.antt =====
-- temporalio_trio/worker/_runtime.py: `apply_activity_resolved`. A converter that raises leaves the
-- method before anything is stored.
use python_trio_sdk.Common.{ℕ, String, Option, none, some, if◌then◌else◌, ℕ_eq, string_eq, ◌==◌}
use python_trio_sdk.Common.Dict
use python_trio_sdk.Host.{
  Host, Exception, Result, ok, err, runtime_error, raised, SerializationContext, activity_context,
  no_context,
}
use python_trio_sdk.Activation.{ActivityResolvedJob, completed, backoff}
use python_trio_sdk.Runtime.State.{
  WorkflowRuntime, ActivityInput, Outcome, value, error, activity_backoff, wake,
}

module _ {h : Host} where
  -- `input.task_queue if hasattr(input, "task_queue") and input.task_queue else self.task_queue`
  abbrev pub queue_of : ActivityInput h.Object → WorkflowRuntime h → String
  queue_of input rt = elim input.task_queue [
    | none ↦ rt.task_queue
    | some q ↦ if q == "" then rt.task_queue else q
  ]

  abbrev pub resolution_context : ActivityInput h.Object → WorkflowRuntime h → SerializationContext
  resolution_context input rt =
      activity_context rt.namespace rt.workflow_id rt.workflow_type input.activity input.activity_id
        (queue_of input rt) input.is_local

  abbrev pub failure_context :
      Option (ActivityInput h.Object) → WorkflowRuntime h → SerializationContext
  failure_context none rt = no_context
  failure_context (some input) rt = resolution_context input rt

  -- `result = None; if job.result_payload is not None: ...`
  unfoldable pub decode_result :
      ActivityResolvedJob h.Object → WorkflowRuntime h → Result h.Object h.Object
  decode_result job rt = elim job.result_payload [
    | none ↦ ok h.none_object
    | some payload ↦ elim (Dict.get rt.activity_inputs job.seq) [
      | none ↦ h.from_payload no_context payload none
      | some input ↦ h.from_payload (resolution_context input rt) payload input.ret_type
    ]
  ]

  -- the `else` branch: failed, cancelled or unknown
  unfoldable pub decode_failure :
      ActivityResolvedJob h.Object → WorkflowRuntime h → Result h.Object (Exception h.Object)
  decode_failure job rt = elim job.failure_proto [
    | none ↦ ok (runtime_error "Unknown activity resolution status")
    | some proto ↦
        elim (h.from_failure (failure_context (Dict.get rt.activity_inputs job.seq) rt) proto) [
          | ok e ↦ ok (raised e)
          | err e ↦ err e
        ]
  ]

  -- what is stored in `completed_activities`
  unfoldable pub resolution :
      ActivityResolvedJob h.Object → WorkflowRuntime h → Result h.Object (Outcome h.Object)
  unfolding decode_result decode_failure
  resolution job rt = elim job.status [
    | backoff ↦ ok (activity_backoff job.backoff)
    | completed ↦ elim (decode_result job rt) [ ok v ↦ ok (value v) | err e ↦ err e ]
    | _ ↦ elim (decode_failure job rt) [ ok e ↦ ok (error e) | err e ↦ err e ]
  ]

  -- the state with an outcome stored, and its waiter woken
  unfoldable pub store_activity : ℕ → Outcome h.Object → WorkflowRuntime h → WorkflowRuntime h
  store_activity seq outcome rt = record rt {
    completed_activities = Dict.put rt.completed_activities seq outcome;
    activity_inputs = Dict.remove rt.activity_inputs seq;
    pending_activities = wake h seq rt.pending_activities;
  }

  unfoldable pub apply_activity_resolved :
      ActivityResolvedJob h.Object
      → WorkflowRuntime h
      → Result h.Object (Unit {0}) × WorkflowRuntime h
  unfolding resolution store_activity
  apply_activity_resolved job rt = elim (resolution job rt) [
    | err e ↦ (err e, rt)
    | ok outcome ↦ (ok tt, store_activity job.seq outcome rt)
  ]
