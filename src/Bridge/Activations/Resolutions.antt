-- ===== src/Bridge/Activations/Resolutions.antt =====
-- temporalio_trio/worker/_bridge_types.py: the conversion of the jobs that resolve something.
use python_trio_sdk.Common.{
  ℕ, String, concat, Option, none, some, if◌then◌else◌, ◌==◌, ltb, ℕ_eq, string_eq,
}
use python_trio_sdk.Host.{Exception, Result, ok, err, runtime_error}
use python_trio_sdk.Activation.{
  DoBackoff, ActivityResolvedJob, Status, ChildWorkflowResolvedJob, WorkflowJob, number, text,
  child_workflow_started, child_workflow_start_failed, signal_external_resolved,
  cancel_external_resolved,
}
use python_trio_sdk.Bridge.Converters.{Converters, ◌>>=◌}
use python_trio_sdk.Bridge.Messages.{
  Resolution, completed, failed, status_cancelled, backoff, no_status, StartStatus, succeeded,
  start_failed, start_cancelled, no_start_status, ChildResult, child_completed, child_failed,
  child_cancelled, no_child_result,
}

module _ {Object : Type 0} (c : Converters Object) where
  -- `result if result.ByteSize() > 0 else None`
  unfoldable pub non_empty_payload : Object → Option Object
  non_empty_payload payload = if ltb 0 (c.byte_size payload) then some payload else none

  -- `no_backoff` stands in the field that only the status "backoff" reads.
  unfoldable pub convert_resolve_activity :
      (no_backoff : DoBackoff Object) → (seq : ℕ) → Resolution Object → ActivityResolvedJob Object
  unfolding non_empty_payload
  convert_resolve_activity no_backoff seq (completed result) = record {
    seq = seq;
    status = Status.completed;
    result_payload = non_empty_payload result;
    failure_proto = none;
    backoff = no_backoff;
  }
  convert_resolve_activity no_backoff seq (failed failure) = record {
    seq = seq;
    status = Status.failed;
    result_payload = none;
    failure_proto = some failure;
    backoff = no_backoff;
  }
  convert_resolve_activity no_backoff seq (status_cancelled failure) = record {
    seq = seq;
    status = Status.status_cancelled;
    result_payload = none;
    failure_proto = some failure;
    backoff = no_backoff;
  }
  convert_resolve_activity no_backoff seq (backoff b) = record {
    seq = seq;
    status = Status.backoff;
    result_payload = none;
    failure_proto = none;
    backoff = b;
  }
  convert_resolve_activity no_backoff seq no_status = record {
    seq = seq;
    status = Status.unknown;
    result_payload = none;
    failure_proto = none;
    backoff = no_backoff;
  }

  unfoldable pub cancel_text : Object → String
  cancel_text failure =
      let message = c.failure_message failure in
      concat "CANCELLED: " (if message == "" then "Child workflow start cancelled" else message)

  unfoldable pub convert_resolve_child_workflow_start :
      (seq : ℕ) → StartStatus Object → Result Object (WorkflowJob Object)
  unfolding cancel_text
  convert_resolve_child_workflow_start seq (succeeded run_id) =
      ok (child_workflow_started seq run_id)
  convert_resolve_child_workflow_start seq (start_failed workflow_id workflow_type cause) = ok (
      child_workflow_start_failed record {
        seq = seq;
        workflow_id = workflow_id;
        workflow_type = workflow_type;
        cause = number cause;
      })
  convert_resolve_child_workflow_start seq (start_cancelled failure) = ok (
      child_workflow_start_failed record {
        seq = seq;
        workflow_id = "";
        workflow_type = "";
        cause = text (cancel_text failure);
      })
  convert_resolve_child_workflow_start seq no_start_status =
      err (runtime_error "Unknown child workflow start status: None")

  unfoldable pub convert_resolve_child_workflow :
      (seq : ℕ) → ChildResult Object → Result Object (ChildWorkflowResolvedJob Object)
  unfolding non_empty_payload
  convert_resolve_child_workflow seq (child_completed result) =
      ok record { seq = seq; result_payload = non_empty_payload result; failure_proto = none }
  convert_resolve_child_workflow seq (child_failed failure) =
      ok record { seq = seq; result_payload = none; failure_proto = some failure }
  convert_resolve_child_workflow seq (child_cancelled failure) =
      ok record { seq = seq; result_payload = none; failure_proto = some failure }
  convert_resolve_child_workflow seq no_child_result =
      err (runtime_error "Unknown child workflow result status: None")

  -- failure_to_exception
  unfoldable pub failure_to_exception : Object → Result Object (Exception Object)
  failure_to_exception failure = c.from_failure failure

  unfoldable pub external_failure : Object → Result Object (Option (Exception Object))
  unfolding failure_to_exception
  external_failure failure =
      if ltb 0 (c.byte_size failure)
      then (failure_to_exception failure >>= λ e. ok (some e))
      else ok none

  unfoldable pub convert_resolve_signal_external_workflow :
      (seq : ℕ) → Object → Result Object (WorkflowJob Object)
  unfolding external_failure
  convert_resolve_signal_external_workflow seq failure = do
    e ← external_failure failure
    ok (signal_external_resolved record { seq = seq; failure = e })

  unfoldable pub convert_resolve_cancel_external_workflow :
      (seq : ℕ) → Object → Result Object (WorkflowJob Object)
  unfolding external_failure
  convert_resolve_cancel_external_workflow seq failure = do
    e ← external_failure failure
    ok (cancel_external_resolved record { seq = seq; failure = e })
