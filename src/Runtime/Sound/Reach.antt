-- ===== src/Runtime/Sound/Reach.antt =====
-- temporalio_trio/worker/_runtime.py: the invariant of a run and sequences of operations.
use python_trio_sdk.Common.{true, false, refl, ℕ, Bool, [], String, Option, ℕ_eq, arith}
use python_trio_sdk.Common.Dict.{get-empty}
use python_trio_sdk.Host.{Host, Exception}
use python_trio_sdk.Runtime.State.{WorkflowRuntime, Identity, Outcome}
use python_trio_sdk.Runtime.New.{new_runtime}
use python_trio_sdk.Runtime.Moves.{
  Move, Reach, sleep, sleep_resumes, execute, execute_local, execute_resumes, schedule,
  schedule_local, wait_activity, wait_resumes, backoff_resumes, start_child, start_child_resumes,
  wait_child, wait_child_resumes, signal_external, signal_child, cancel_external, patch,
  timer_fires, activity_resolves, child_starts, child_start_fails, child_resolves, signal_resolves,
  cancel_resolves, condition_waits, condition_resumes, conditions_notified, cancel_arrives,
  patch_notified, commands_collected, activation_arrives, worker_writes, here, next,
}
use python_trio_sdk.Runtime.Wakes.{Wakes}
use python_trio_sdk.Runtime.Sound.Invariant.{IsSound, IsSoundWhen, Starts, StartsWoken}
use python_trio_sdk.Runtime.Sound.Calls.{
  workflow_sleep-IsSound, resume_sleep-IsSound, execute_activity-IsSound,
  execute_local_activity-IsSound, resume_execute-IsSound, outbound_schedule_activity-IsSound,
  outbound_schedule_local_activity-IsSound,
}
use python_trio_sdk.Runtime.Sound.Backoff.{
  workflow_wait_activity-IsSound, resume_wait_activity-IsSound, resume_backoff-IsSound,
}
use python_trio_sdk.Runtime.Sound.Children.{
  outbound_start_child_workflow-IsSound, resume_child_start-IsSound,
  workflow_wait_child_workflow-IsSound, resume_child-IsSound, apply_child_workflow_started-IsSound,
  apply_child_workflow_start_failed-IsSound, apply_child_workflow_resolved-IsSound,
}
use python_trio_sdk.Runtime.Sound.Jobs.{
  apply_timer_fired-IsSound, apply_activity_resolved-IsSound,
  workflow_signal_external_workflow-IsSound, signal_child_workflow-IsSound,
  workflow_wait_condition-IsSound, resume_condition-IsSound, notify_condition_waiters-IsSound,
  apply_cancel_workflow-IsSound, apply_notify_has_patch-IsSound,
  workflow_cancel_external_workflow-IsSound, apply_signal_external_resolved-IsSound,
  apply_cancel_external_resolved-IsSound, workflow_patch-IsSound,
}

module _ {h : Host} {strict : Bool} where
  Move-IsSound :
      {rt rt' : WorkflowRuntime h} → Move rt rt' → IsSoundWhen strict rt → IsSoundWhen strict rt'
  Move-IsSound {rt} (sleep d summary) s = workflow_sleep-IsSound d summary rt s
  Move-IsSound {rt} (sleep_resumes seq how) s = resume_sleep-IsSound seq how rt s
  Move-IsSound {rt} (execute name args queue id close start run beat policy cancellation) s =
      execute_activity-IsSound name args queue id close start run beat policy cancellation rt s
  Move-IsSound {rt} (execute_local name args id close start run policy threshold cancellation) s =
      execute_local_activity-IsSound name args id close start run policy threshold cancellation rt s
  Move-IsSound {rt} (execute_resumes seq how) s = resume_execute-IsSound seq how rt s
  Move-IsSound {rt} (schedule input) s = outbound_schedule_activity-IsSound input rt s
  Move-IsSound {rt} (schedule_local input) s = outbound_schedule_local_activity-IsSound input rt s
  Move-IsSound {rt} (wait_activity fuel seq issued) s =
      workflow_wait_activity-IsSound fuel seq rt issued s
  Move-IsSound {rt} (wait_resumes fuel seq how) s = resume_wait_activity-IsSound fuel seq how rt s
  Move-IsSound {rt} (backoff_resumes fuel seq timer_seq b how) s =
      resume_backoff-IsSound fuel seq timer_seq b how rt s
  Move-IsSound {rt} (start_child input) s = outbound_start_child_workflow-IsSound input rt s
  Move-IsSound {rt} (start_child_resumes seq id how) s = resume_child_start-IsSound seq id how rt s
  Move-IsSound {rt} (wait_child seq) s = workflow_wait_child_workflow-IsSound seq rt s
  Move-IsSound {rt} (wait_child_resumes seq how) s = resume_child-IsSound seq how rt s
  Move-IsSound {rt} (signal_external id name args run_id) s =
      workflow_signal_external_workflow-IsSound id name args run_id rt s
  Move-IsSound {rt} (signal_child id name args headers) s =
      signal_child_workflow-IsSound id name args headers rt s
  Move-IsSound {rt} (cancel_external id run_id) s =
      workflow_cancel_external_workflow-IsSound id run_id rt s
  Move-IsSound {rt} (patch patch_id deprecated) s = workflow_patch-IsSound patch_id deprecated rt s
  Move-IsSound {rt} (timer_fires seq time issued) s = apply_timer_fired-IsSound seq time rt issued s
  Move-IsSound {rt} (activity_resolves job issued) s =
      apply_activity_resolved-IsSound job rt issued s
  Move-IsSound {rt} (child_starts seq run_id issued) s =
      apply_child_workflow_started-IsSound seq run_id rt issued s
  Move-IsSound {rt} (child_start_fails job issued) s =
      apply_child_workflow_start_failed-IsSound job rt issued s
  Move-IsSound {rt} (child_resolves seq outcome issued begun) s =
      apply_child_workflow_resolved-IsSound seq outcome rt issued (λ _. begun) s
  Move-IsSound {rt} (signal_resolves seq failure issued) s =
      apply_signal_external_resolved-IsSound seq failure rt issued s
  Move-IsSound {rt} (cancel_resolves seq failure issued) s =
      apply_cancel_external_resolved-IsSound seq failure rt issued s
  Move-IsSound {rt} (condition_waits holds) s = workflow_wait_condition-IsSound holds rt s
  Move-IsSound {rt} (condition_resumes event start timeout holds how) s =
      resume_condition-IsSound event start timeout holds how rt s
  Move-IsSound {rt} conditions_notified s = notify_condition_waiters-IsSound rt s
  Move-IsSound {rt} cancel_arrives s = apply_cancel_workflow-IsSound rt s
  Move-IsSound {rt} (patch_notified patch_id) s = apply_notify_has_patch-IsSound patch_id rt s
  Move-IsSound {rt} commands_collected s = assumption s
  Move-IsSound {rt} (worker_writes commands nursery in_progress read_only) s = assumption s
  Move-IsSound {rt} (activation_arrives time_ns is_replaying) s = assumption s

  pub Reach-IsSound :
      {rt rt' : WorkflowRuntime h} → IsSoundWhen strict rt → Reach rt rt' → IsSoundWhen strict rt'
  Reach-IsSound s here = s
  Reach-IsSound s (next r m) = Move-IsSound m (Reach-IsSound s r)

Wakes-empty : (h : Host) (X : Type 0) → Wakes h {X = X} 0 [] []
Wakes-empty h X = record {
  woken = λ seq e p. cc (get-empty {V = h.Event} seq);
  pending_issued = λ seq p. ground (arith, get-empty {V = h.Event} seq);
  recorded_issued = λ seq p. ground (arith, get-empty {V = X} seq);
}

Starts-empty : (h : Host) (strict : Bool) (X : Type 0) → Starts h strict {X = X} 0 [] [] []
Starts-empty h strict X = record {
  recorded_woken = λ always seq e p. cc (get-empty {V = h.Event} seq);
  started_woken = λ seq e p. cc (get-empty {V = h.Event} seq);
  woken_started = λ seq e p. cc (get-empty {V = h.Event} seq);
  started_issued = λ seq p. ground (arith, get-empty {V = String} seq);
  pending_issued = λ seq p. ground (arith, get-empty {V = h.Event} seq);
}

module _ (h : Host) (identity : Identity h.Object) (time_ns : ℕ)
    (is_replaying on_suspend : Bool) where
  new_runtime-IsSound :
      (strict : Bool) → IsSoundWhen strict (new_runtime h identity time_ns is_replaying on_suspend)
  unfolding new_runtime
  new_runtime-IsSound strict = record {
    timers = Wakes-empty h ℕ;
    activities = Wakes-empty h (Outcome h.Object);
    children = Wakes-empty h (Outcome h.Object);
    starts = Starts-empty h strict (Outcome h.Object);
    signals = Wakes-empty h (Option (Exception h.Object));
    cancels = Wakes-empty h (Option (Exception h.Object));
  }

  StartsWoken-strict : {rt : WorkflowRuntime h} → IsSoundWhen true rt → StartsWoken rt
  StartsWoken-strict {rt} s = record {
    woken = λ seq e p. ground (
      arith,
      s.starts.started_woken seq e p,
      s.starts.woken_started seq e p,
      s.starts.recorded_woken refl seq e p,
    );
  }

  -- In every state that the runtime reaches from its creation by calls of workflow code, resumptions,
  -- jobs, notifications and collections of commands in any order, where jobs carry numbers that were
  -- given out and a child has a result only after its start: the event of a pending timer, activity,
  -- child, external signal or external cancel is set exactly when its outcome is recorded, that of a
  -- pending child start exactly when the child has started or has an outcome, as after a failed start;
  -- and all numbers in use were given out.
  pub reachable-IsSound :
      (rt : WorkflowRuntime h)
      → Reach (new_runtime h identity time_ns is_replaying on_suspend) rt
      → IsSound rt × StartsWoken rt
  reachable-IsSound rt r = (
    Reach-IsSound (new_runtime-IsSound false) r,
    StartsWoken-strict (Reach-IsSound (new_runtime-IsSound true) r),
  )
