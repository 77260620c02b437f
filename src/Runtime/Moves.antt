-- ===== src/Runtime/Moves.antt =====
-- temporalio_trio/worker/_runtime.py: a run as a sequence of operations, in any order that workflow
-- code, trio and the server choose.
use python_trio_sdk.Common.{◌≡◌, true, ℕ, ◌≤◌, Bool, List, [], String, Option, ℕ_eq}
use python_trio_sdk.Common.Dict.{Dict}
use python_trio_sdk.Common.Dict
use python_trio_sdk.Host.{Host, Exception}
use python_trio_sdk.Activation.{
  Command, ActivityResolvedJob, ChildWorkflowStartFailedJob, DoBackoff,
}
use python_trio_sdk.Runtime.State.{WorkflowRuntime, Nursery, Wake, Outcome}
use python_trio_sdk.Runtime.Timers.{workflow_sleep, resume_sleep, apply_timer_fired}
use python_trio_sdk.Runtime.Activities.Requests.{StartActivityInput, StartLocalActivityInput}
use python_trio_sdk.Runtime.Activities.Execute.{
  execute_activity, execute_local_activity, resume_execute,
}
use python_trio_sdk.Runtime.Activities.Schedule.{
  outbound_schedule_activity, outbound_schedule_local_activity,
}
use python_trio_sdk.Runtime.Activities.Waiting.{
  workflow_wait_activity, resume_wait_activity, resume_backoff,
}
use python_trio_sdk.Runtime.Activities.Resolve.{apply_activity_resolved}
use python_trio_sdk.Runtime.Children.Requests.{StartChildWorkflowInput}
use python_trio_sdk.Runtime.Children.Start.{outbound_start_child_workflow, resume_child_start}
use python_trio_sdk.Runtime.Children.Result.{
  workflow_wait_child_workflow, resume_child, apply_child_workflow_started,
  apply_child_workflow_start_failed, apply_child_workflow_resolved,
}
use python_trio_sdk.Runtime.External.{
  workflow_signal_external_workflow, signal_child_workflow, workflow_cancel_external_workflow,
  apply_signal_external_resolved, apply_cancel_external_resolved,
}
use python_trio_sdk.Runtime.Patches.{workflow_patch, apply_notify_has_patch}
use python_trio_sdk.Runtime.Conditions.{
  workflow_wait_condition, resume_condition, notify_condition_waiters, apply_cancel_workflow,
  Timeout,
}

-- What can happen next. A job names a number that was given out, as the server's jobs do; so does a
-- wait for an activity, whose handle has its number. A child that has a result has started.
pub data Move {h : Host} (rt : WorkflowRuntime h) : WorkflowRuntime h → Type 0 where
  sleep :
      (duration_ms : ℕ) (summary : Option String)
      → Move rt (workflow_sleep duration_ms summary rt).1
  sleep_resumes : (seq : ℕ) (how : Wake) → Move rt (resume_sleep seq how rt).1
  execute :
      (name : String) (args : List h.Object) (queue id : Option String)
      (close start run beat : Option ℕ)
      → (policy : Option h.Object) (cancellation : ℕ)
      → Move rt (execute_activity name args queue id close start run beat policy cancellation rt).1
  execute_local :
      (name : String) (args : List h.Object) (id : Option String) (close start run : Option ℕ)
      → (policy : Option h.Object) (threshold : Option ℕ) (cancellation : ℕ)
      → Move rt
          (execute_local_activity name args id close start run policy threshold cancellation rt).1
  execute_resumes : (seq : ℕ) (how : Wake) → Move rt (resume_execute seq how rt).1
  schedule : (input : StartActivityInput h.Object) → Move rt (outbound_schedule_activity input rt).1
  schedule_local :
      (input : StartLocalActivityInput h.Object)
      → Move rt (outbound_schedule_local_activity input rt).1
  wait_activity :
      (fuel seq : ℕ) → seq ≤ rt.activity_seq → Move rt (workflow_wait_activity fuel seq rt).1
  wait_resumes : (fuel seq : ℕ) (how : Wake) → Move rt (resume_wait_activity fuel seq how rt).1
  backoff_resumes :
      (fuel seq timer_seq : ℕ) (b : DoBackoff h.Object) (how : Wake)
      → Move rt (resume_backoff fuel seq timer_seq b how rt).1
  start_child :
      (input : StartChildWorkflowInput h.Object)
      → Move rt (outbound_start_child_workflow input rt).1
  start_child_resumes :
      (seq : ℕ) (id : String) (how : Wake) → Move rt (resume_child_start seq id how rt).1
  wait_child : (seq : ℕ) → Move rt (workflow_wait_child_workflow seq rt).1
  wait_child_resumes : (seq : ℕ) (how : Wake) → Move rt (resume_child seq how rt).1
  signal_external :
      (id name : String) (args : List h.Object) (run_id : Option String)
      → Move rt (workflow_signal_external_workflow id name args run_id rt).1
  signal_child :
      (id name : String) (args : List h.Object) (headers : Dict String h.Object)
      → Move rt (signal_child_workflow id name args headers rt).1
  cancel_external :
      (id : String) (run_id : Option String)
      → Move rt (workflow_cancel_external_workflow id run_id rt).1
  patch :
      (patch_id : String) (deprecated : Bool) → Move rt (workflow_patch patch_id deprecated rt).1
  timer_fires : (seq time : ℕ) → seq ≤ rt.timer_seq → Move rt (apply_timer_fired seq time rt)
  activity_resolves :
      (job : ActivityResolvedJob h.Object)
      → job.seq ≤ rt.activity_seq
      → Move rt (apply_activity_resolved job rt).1
  child_starts :
      (seq : ℕ) (run_id : String)
      → seq ≤ rt.child_workflow_seq
      → Move rt (apply_child_workflow_started seq run_id rt)
  child_start_fails :
      (job : ChildWorkflowStartFailedJob h.Object)
      → job.seq ≤ rt.child_workflow_seq
      → Move rt (apply_child_workflow_start_failed job rt)
  child_resolves :
      (seq : ℕ) (outcome : Outcome h.Object)
      → seq ≤ rt.child_workflow_seq
      → Dict.has rt.started_children seq ≡ true
      → Move rt (apply_child_workflow_resolved seq outcome rt)
  signal_resolves :
      (seq : ℕ) (failure : Option (Exception h.Object))
      → seq ≤ rt.signal_external_seq
      → Move rt (apply_signal_external_resolved seq failure rt)
  cancel_resolves :
      (seq : ℕ) (failure : Option (Exception h.Object))
      → seq ≤ rt.cancel_external_seq
      → Move rt (apply_cancel_external_resolved seq failure rt)
  condition_waits : (holds : Bool) → Move rt (workflow_wait_condition holds rt).1
  condition_resumes :
      (event start_time_ns : ℕ) (timeout : Option Timeout) (holds : Bool) (how : Wake)
      → Move rt (resume_condition event start_time_ns timeout holds how rt).1
  conditions_notified : Move rt (notify_condition_waiters rt)
  cancel_arrives : Move rt (apply_cancel_workflow rt)
  patch_notified : (patch_id : String) → Move rt (apply_notify_has_patch patch_id rt)
  -- wait_for_commands
  commands_collected : Move rt (record rt { commands = [] })
  -- what the worker writes besides: responses, tasks, the updates that run and the read-only mark
  worker_writes :
      (commands : List (Command h.Object))
      → (nursery : Option (Nursery h.Object)) → (in_progress : Dict String String)
      → (read_only : Bool)
      → Move rt (record rt {
        commands = commands;
        nursery = nursery;
        in_progress_updates = in_progress;
        read_only = read_only;
      })
  -- a new activation
  activation_arrives :
      (time_ns : ℕ) (is_replaying : Bool)
      → Move rt (record rt { time_ns = time_ns; is_replaying = is_replaying })

pub data Reach {h : Host} (rt : WorkflowRuntime h) : WorkflowRuntime h → Type 0 where
  here : Reach rt rt
  next : {rt' rt'' : WorkflowRuntime h} → Reach rt rt' → Move rt' rt'' → Reach rt rt''
