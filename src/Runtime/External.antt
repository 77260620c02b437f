-- ===== src/Runtime/External.antt =====
-- temporalio_trio/worker/_runtime.py: signals and cancellations of external workflows.
use python_trio_sdk.Common.{ℕ, ◌+◌, String, Option, none, some, List, [], ℕ_eq}
use python_trio_sdk.Common.Dict
use python_trio_sdk.Common.Dict.{Dict}
use python_trio_sdk.Host.{Host, Exception, Result, ok, err, cancelled, workflow_context}
use python_trio_sdk.Activation.{Command}
use python_trio_sdk.Runtime.State.{
  WorkflowRuntime, external_signal, external_cancel, Await, done, blocked, Wake, event_set,
  scope_cancelled, emit, notify_suspend, wake,
}
use python_trio_sdk.Runtime.Activities.Schedule.{encode_args}

-- `if error is not None: raise error` and then `return`
abbrev pub raise_if : {Object : Type 0} → Option (Exception Object) → Result Object (Unit {0})
raise_if none = ok tt
raise_if (some e) = err e

-- The same behind a look-up that may find nothing.
abbrev pub raise_recorded :
    {Object : Type 0} → Option (Option (Exception Object)) → Result Object (Unit {0})
raise_recorded none = ok tt
raise_recorded (some error) = raise_if error

module _ {h : Host} where
  -- The common course of a signal: return what is recorded, or emit the command and wait.
  unfoldable pub begin_signal :
      (ℕ → Command h.Object) → WorkflowRuntime h → Await h.Object (Unit {0}) × WorkflowRuntime h
  begin_signal command rt =
      let seq = rt.signal_external_seq + 1 in
      let rt' = record rt { signal_external_seq = seq } in
      let waiting = record rt' {
        pending_external_signals = Dict.put rt'.pending_external_signals seq h.new_event;
      } in
      elim (Dict.get rt'.completed_external_signals seq) [
        | some error ↦ (done (raise_if error), rt')
        | none ↦ (blocked (external_signal seq), notify_suspend (emit (command seq) waiting))
      ]

  -- The signal with its arguments encoded, or with the exception of the converter.
  unfoldable pub send_signal :
      Result h.Object (List h.Object)
      → (List h.Object → ℕ → Command h.Object)
      → WorkflowRuntime h
      → Await h.Object (Unit {0}) × WorkflowRuntime h
  unfolding begin_signal
  send_signal (err e) command rt = (done (err e), rt)
  send_signal (ok encoded) command rt = begin_signal (command encoded) rt

  unfoldable pub workflow_signal_external_workflow :
      (workflow_id signal_name : String)
      → List h.Object
      → (run_id : Option String) → WorkflowRuntime h
      → Await h.Object (Unit {0}) × WorkflowRuntime h
  unfolding send_signal
  workflow_signal_external_workflow workflow_id signal_name args run_id rt =
      send_signal (encode_args h (workflow_context rt.namespace workflow_id) args)
        (λ encoded seq. Command.signal_external_workflow (record {
          seq = seq;
          workflow_id = workflow_id;
          signal_name = signal_name;
          run_id = run_id;
          args = encoded;
          headers = [];
          child_workflow_id = none;
        }))
        rt

  -- `_WorkflowOutboundImpl.signal_child_workflow` of _single_thread_worker.py
  unfoldable pub signal_child_workflow :
      (child_workflow_id signal_name : String)
      → List h.Object
      → (headers : Dict String h.Object) → WorkflowRuntime h
      → Await h.Object (Unit {0}) × WorkflowRuntime h
  unfolding send_signal
  signal_child_workflow child_workflow_id signal_name args headers rt =
      send_signal (encode_args h (workflow_context rt.namespace child_workflow_id) args)
        (λ encoded seq. Command.signal_external_workflow (record {
          seq = seq;
          workflow_id = child_workflow_id;
          signal_name = signal_name;
          run_id = none;
          args = encoded;
          headers = headers;
          child_workflow_id = some child_workflow_id;
        }))
        rt

  -- behind `await event.wait()`: the entry of `pending_external_signals` stays
  unfoldable pub resume_signal :
      ℕ → Wake → WorkflowRuntime h → Result h.Object (Unit {0}) × WorkflowRuntime h
  resume_signal seq scope_cancelled rt = (err cancelled, rt)
  resume_signal seq event_set rt = (raise_recorded (Dict.get rt.completed_external_signals seq), rt)

  unfoldable pub workflow_cancel_external_workflow :
      (workflow_id : String)
      → (run_id : Option String) → WorkflowRuntime h
      → Await h.Object (Unit {0}) × WorkflowRuntime h
  workflow_cancel_external_workflow workflow_id run_id rt =
      let seq = rt.cancel_external_seq + 1 in
      let rt' = record rt { cancel_external_seq = seq } in
      let waiting = record rt' {
        pending_external_cancels = Dict.put rt'.pending_external_cancels seq h.new_event;
      } in
      let command =
        Command.request_cancel_external_workflow
          (record { seq = seq; workflow_id = workflow_id; run_id = run_id }) in
      elim (Dict.get rt'.completed_external_cancels seq) [
        | some error ↦ (done (raise_if error), rt')
        | none ↦ (blocked (external_cancel seq), notify_suspend (emit command waiting))
      ]

  unfoldable pub resume_cancel :
      ℕ → Wake → WorkflowRuntime h → Result h.Object (Unit {0}) × WorkflowRuntime h
  resume_cancel seq scope_cancelled rt = (err cancelled, rt)
  resume_cancel seq event_set rt = (raise_recorded (Dict.get rt.completed_external_cancels seq), rt)

  unfoldable pub apply_signal_external_resolved :
      ℕ → Option (Exception h.Object) → WorkflowRuntime h → WorkflowRuntime h
  apply_signal_external_resolved seq error rt = record rt {
    completed_external_signals = Dict.put rt.completed_external_signals seq error;
    pending_external_signals = wake h seq rt.pending_external_signals;
  }

  unfoldable pub apply_cancel_external_resolved :
      ℕ → Option (Exception h.Object) → WorkflowRuntime h → WorkflowRuntime h
  apply_cancel_external_resolved seq error rt = record rt {
    completed_external_cancels = Dict.put rt.completed_external_cancels seq error;
    pending_external_cancels = wake h seq rt.pending_external_cancels;
  }
