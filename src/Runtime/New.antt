-- ===== src/Runtime/New.antt =====
-- temporalio_trio/worker/_single_thread_worker.py: the runtime that a workflow task starts with.
use python_trio_sdk.Common.{ℕ, Bool, false, none, []}
use python_trio_sdk.Host.{Host}
use python_trio_sdk.Runtime.State.{Identity, WorkflowRuntime}

-- The runtime that `_run_workflow` creates.
unfoldable pub new_runtime :
    (h : Host) → Identity h.Object → ℕ → Bool → (on_suspend : Bool) → WorkflowRuntime h
new_runtime h identity time_ns is_replaying on_suspend = record {
  identity = identity;
  time_ns = time_ns;
  is_replaying = is_replaying;
  timer_seq = 0;
  activity_seq = 0;
  child_workflow_seq = 0;
  signal_external_seq = 0;
  cancel_external_seq = 0;
  fired_timers = [];
  completed_activities = [];
  completed_children = [];
  started_children = [];
  child_workflow_ret_types = [];
  child_workflow_ids = [];
  completed_external_signals = [];
  completed_external_cancels = [];
  pending_timers = [];
  pending_activities = [];
  activity_inputs = [];
  pending_child_starts = [];
  pending_children = [];
  pending_external_signals = [];
  pending_external_cancels = [];
  commands = [];
  nursery = none;
  on_suspend = on_suspend;
  suspensions = 0;
  signal_handlers = [];
  query_handlers = [];
  update_handlers = [];
  update_validators = [];
  in_progress_updates = [];
  cancel_requested = false;
  condition_waiters = [];
  set_conditions = [];
  next_condition = 0;
  patches_notified = [];
  patches_memoized = [];
  read_only = false;
}
