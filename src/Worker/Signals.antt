-- ===== src/Worker/Signals.antt =====
-- temporalio_trio/worker/_single_thread_worker.py: `_apply_signal`.
use python_trio_sdk.Common.{none, some, if◌then◌else◌, name_eq}
use python_trio_sdk.Common.Dict
use python_trio_sdk.Host.{Host, is_exception, Result, ok, err}
use python_trio_sdk.Activation.{SignalWorkflowJob}
use python_trio_sdk.Runtime.State.{WorkflowRuntime, signal_handler}
use python_trio_sdk.Runtime.Conditions.{notify_condition_waiters}
use python_trio_sdk.Worker.Code.{Call, returned, coroutine, failed, Caller}
use python_trio_sdk.Worker.Updates.{start_soon}

module _ {h : Host} where
  -- A handler's exception is logged. Without a nursery the coroutine is closed.
  unfoldable pub after_signal :
      SignalWorkflowJob h.Object
      → Call h.Object
      → WorkflowRuntime h
      → Result h.Object (Unit {0}) × WorkflowRuntime h
  unfolding notify_condition_waiters start_soon
  after_signal job (returned v) rt = (ok tt, notify_condition_waiters rt)
  after_signal job (coroutine c) rt = elim rt.nursery [
    | none ↦ (ok tt, notify_condition_waiters rt)
    | some nursery ↦
        (ok tt, notify_condition_waiters (start_soon (signal_handler c job.signal_name) nursery rt))
  ]
  after_signal job (failed e) rt =
      if is_exception e then (ok tt, notify_condition_waiters rt) else (err e, rt)

module _ {h : Host} (call : Caller h) where
  unfoldable pub apply_signal :
      SignalWorkflowJob h.Object
      → WorkflowRuntime h
      → Result h.Object (Unit {0}) × WorkflowRuntime h
  unfolding after_signal
  apply_signal job rt = elim (Dict.get rt.signal_handlers (some job.signal_name)) [
    | none ↦ (ok tt, rt)
    | some handler ↦ after_signal job (call handler job.args rt).0 (call handler job.args rt).1
  ]
