-- ===== src/Runtime/Sound/Jobs.antt =====
-- temporalio_trio/worker/_runtime.py: the invariant of a run and the jobs that resolve
-- timers, activities and external requests, and the operations that touch none of them.
use python_trio_sdk.Common.{
  ℕ, ◌+◌, ◌≤◌, ◌≡◌, refl, Bool, true, false, inl, inr, Option-cases, ℕ_eq, string_eq, String,
  Option, Bool-cases, List,
}
use python_trio_sdk.Common.Dict
use python_trio_sdk.Common.Dict.{Dict}
use python_trio_sdk.Host.{Host, Exception, Result, ok, err}
use python_trio_sdk.Activation.{Command, ActivityResolvedJob}
use python_trio_sdk.Runtime.State.{WorkflowRuntime, Wake, event_set, scope_cancelled, Outcome}
use python_trio_sdk.Runtime.Wakes.{Wakes-begin, Wakes-skip, Wakes-resolve}
use python_trio_sdk.Runtime.Timers.{apply_timer_fired}
use python_trio_sdk.Runtime.Activities.Resolve.{resolution, apply_activity_resolved}
use python_trio_sdk.Runtime.External.{
  begin_signal, send_signal, signal_child_workflow, workflow_signal_external_workflow,
  workflow_cancel_external_workflow, apply_signal_external_resolved, apply_cancel_external_resolved,
}
use python_trio_sdk.Runtime.Patches.{apply_notify_has_patch, workflow_patch}
use python_trio_sdk.Runtime.Conditions.{
  notify_condition_waiters, apply_cancel_workflow, workflow_wait_condition, resume_condition,
  Timeout, is_late, deadline,
}
use python_trio_sdk.Runtime.Sound.Invariant.{IsSoundWhen}

module _ {h : Host} {strict : Bool} where
  pub apply_timer_fired-IsSound :
      (seq fire_time : ℕ) (rt : WorkflowRuntime h)
      → seq ≤ rt.timer_seq
      → IsSoundWhen strict rt
      → IsSoundWhen strict (apply_timer_fired seq fire_time rt)
  unfolding apply_timer_fired
  apply_timer_fired-IsSound seq fire_time rt issued s =
      assumption (s, Wakes-resolve _ seq fire_time _ _ issued s.timers)

  -- The invariant is kept also where a converter raises and nothing is stored.
  pub apply_activity_resolved-IsSound :
      (job : ActivityResolvedJob h.Object) (rt : WorkflowRuntime h)
      → job.seq ≤ rt.activity_seq
      → IsSoundWhen strict rt
      → IsSoundWhen strict (apply_activity_resolved job rt).1
  unfolding apply_activity_resolved
  apply_activity_resolved-IsSound job rt issued s = go (resolution job rt) refl
    where
      go :
          (r : Result h.Object (Outcome h.Object))
          → resolution job rt ≡ r
          → IsSoundWhen strict (apply_activity_resolved job rt).1
      go (err e) p = rw (p, apply_activity_resolved) s
      go (ok x) p =
          rw (p, apply_activity_resolved)
            (assumption (s, Wakes-resolve _ job.seq x _ _ issued s.activities))

  begin_signal-IsSound :
      (command : ℕ → Command h.Object) (rt : WorkflowRuntime h)
      → IsSoundWhen strict rt
      → IsSoundWhen strict (begin_signal command rt).1
  unfolding begin_signal
  begin_signal-IsSound command rt s =
      elim (Option-cases (Dict.get rt.completed_external_signals (rt.signal_external_seq + 1))) [
        | inl e ↦ rw (e, begin_signal) (assumption (s, Wakes-begin _ _ _ s.signals))
        | inr (x, e) ↦ rw (e, begin_signal) (assumption (s, Wakes-skip _ _ _ s.signals))
      ]

  send_signal-IsSound :
      (args : Result h.Object (List h.Object))
      → (command : List h.Object → ℕ → Command h.Object) → (rt : WorkflowRuntime h)
      → IsSoundWhen strict rt
      → IsSoundWhen strict (send_signal args command rt).1
  unfolding send_signal
  send_signal-IsSound (err e) command rt s = s
  send_signal-IsSound (ok encoded) command rt s = begin_signal-IsSound (command encoded) rt s

  pub workflow_signal_external_workflow-IsSound :
      (id name : String) (args : List h.Object) (run_id : Option String) (rt : WorkflowRuntime h)
      → IsSoundWhen strict rt
      → IsSoundWhen strict (workflow_signal_external_workflow id name args run_id rt).1
  unfolding workflow_signal_external_workflow
  workflow_signal_external_workflow-IsSound id name args run_id rt s = send_signal-IsSound _ _ rt s

  pub signal_child_workflow-IsSound :
      (id name : String) (args : List h.Object) (headers : Dict String h.Object)
      (rt : WorkflowRuntime h)
      → IsSoundWhen strict rt
      → IsSoundWhen strict (signal_child_workflow id name args headers rt).1
  unfolding signal_child_workflow
  signal_child_workflow-IsSound id name args headers rt s = send_signal-IsSound _ _ rt s

  pub workflow_cancel_external_workflow-IsSound :
      (id : String) (run_id : Option String) (rt : WorkflowRuntime h)
      → IsSoundWhen strict rt
      → IsSoundWhen strict (workflow_cancel_external_workflow id run_id rt).1
  unfolding workflow_cancel_external_workflow
  workflow_cancel_external_workflow-IsSound id run_id rt s =
      elim (Option-cases (Dict.get rt.completed_external_cancels (rt.cancel_external_seq + 1))) [
        | inl e ↦
            rw (e, workflow_cancel_external_workflow) (assumption (s, Wakes-begin _ _ _ s.cancels))
        | inr (x, e) ↦
            rw (e, workflow_cancel_external_workflow) (assumption (s, Wakes-skip _ _ _ s.cancels))
      ]

  pub apply_signal_external_resolved-IsSound :
      (seq : ℕ) (failure : Option (Exception h.Object)) (rt : WorkflowRuntime h)
      → seq ≤ rt.signal_external_seq
      → IsSoundWhen strict rt
      → IsSoundWhen strict (apply_signal_external_resolved seq failure rt)
  unfolding apply_signal_external_resolved
  apply_signal_external_resolved-IsSound seq failure rt issued s =
      assumption (s, Wakes-resolve _ seq failure _ _ issued s.signals)

  pub apply_cancel_external_resolved-IsSound :
      (seq : ℕ) (failure : Option (Exception h.Object)) (rt : WorkflowRuntime h)
      → seq ≤ rt.cancel_external_seq
      → IsSoundWhen strict rt
      → IsSoundWhen strict (apply_cancel_external_resolved seq failure rt)
  unfolding apply_cancel_external_resolved
  apply_cancel_external_resolved-IsSound seq failure rt issued s =
      assumption (s, Wakes-resolve _ seq failure _ _ issued s.cancels)

  pub workflow_patch-IsSound :
      (patch_id : String) (deprecated : Bool) (rt : WorkflowRuntime h)
      → IsSoundWhen strict rt
      → IsSoundWhen strict (workflow_patch patch_id deprecated rt).1
  unfolding workflow_patch
  workflow_patch-IsSound patch_id deprecated rt s =
      elim (Option-cases (Dict.get rt.patches_memoized patch_id)) [
        | inl e ↦ elim (Bool-cases rt.is_replaying) [
          | inl r ↦ rw (e, r, workflow_patch) (assumption s)
          | inr r ↦ rw (e, r, workflow_patch) (assumption s)
        ]
        | inr (x, e) ↦ rw (e, workflow_patch) s
      ]

  pub workflow_wait_condition-IsSound :
      (holds : Bool) (rt : WorkflowRuntime h)
      → IsSoundWhen strict rt
      → IsSoundWhen strict (workflow_wait_condition holds rt).1
  unfolding workflow_wait_condition
  workflow_wait_condition-IsSound true rt s = s
  workflow_wait_condition-IsSound false rt s = assumption s

  pub resume_condition-IsSound :
      (event start : ℕ) (timeout : Option Timeout) (holds : Bool) (how : Wake)
      (rt : WorkflowRuntime h)
      → IsSoundWhen strict rt
      → IsSoundWhen strict (resume_condition event start timeout holds how rt).1
  unfolding resume_condition
  resume_condition-IsSound event start timeout holds scope_cancelled rt s = assumption s
  resume_condition-IsSound event start timeout holds event_set rt s =
      elim (Bool-cases (is_late (deadline timeout) start rt.time_ns)) [
        | inl e ↦ rw (e, resume_condition) (assumption s)
        | inr e ↦ elim (Bool-cases holds) [
          | inl p ↦ rw (e, p, resume_condition) (assumption s)
          | inr p ↦ rw (e, p, resume_condition) (assumption s)
        ]
      ]

  pub notify_condition_waiters-IsSound :
      (rt : WorkflowRuntime h)
      → IsSoundWhen strict rt
      → IsSoundWhen strict (notify_condition_waiters rt)
  unfolding notify_condition_waiters
  notify_condition_waiters-IsSound rt s = assumption s

  pub apply_cancel_workflow-IsSound :
      (rt : WorkflowRuntime h)
      → IsSoundWhen strict rt
      → IsSoundWhen strict (apply_cancel_workflow rt)
  unfolding apply_cancel_workflow
  apply_cancel_workflow-IsSound rt s = assumption s

  pub apply_notify_has_patch-IsSound :
      (patch_id : String) (rt : WorkflowRuntime h)
      → IsSoundWhen strict rt
      → IsSoundWhen strict (apply_notify_has_patch patch_id rt)
  unfolding apply_notify_has_patch
  apply_notify_has_patch-IsSound patch_id rt s = assumption s
